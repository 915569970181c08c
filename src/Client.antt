-- ===== src/Client.antt =====
-- client_app/endpoint/GrpcClient.cpp and client_app/client_app_main.cpp, and a text on its way from
-- one client through the server to another. `Start` has the login of the predefined users,
-- `SendLoop` and `Session` what is typed, `Printed` what is shown, `Loops` the two threads, and
-- `TcpLogin` a login over TCP.
pub mod Defs
pub mod Texts
pub mod Start
pub mod EndToEnd
pub mod SendLoop
pub mod Printed
pub mod Loops
pub mod Session
pub mod TcpLogin
mod Tests
mod LoopTests
