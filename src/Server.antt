-- ===== src/Server.antt =====
-- server_app/endpoint/ServerTcpEndpoint.cpp, common/endpoint/TcpEndpointBase.cpp and
-- server_app/server_manager/ServerManager.cpp: users log in over TCP, and the mail that the UDP
-- endpoint receives is passed on to the address that they logged in from. `Tcp` has the bytes of an
-- envelope on the connection, `SetUp` the constructor of the server manager, `Delivery` a login and
-- the mail after it, `Descriptors` the connections that are opened and closed, `Application` the process, and `Lifetime` the
-- order in which the services are destroyed.
pub mod Defs
pub mod Login
pub mod Tcp
pub mod Relay
pub mod Descriptors
pub mod Lifetime
pub mod Delivery
pub mod SetUp
pub mod Application
mod Tests
mod SessionTests
