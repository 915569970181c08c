-- ===== src/GrpcServer.antt =====
-- server_app/endpoint/GrpcServer.{hpp,cpp}: the post boxes of the users that are online, and the
-- handlers of the gRPC service. `Mail` is what a client may know of the post boxes, `Refine` that
-- the handlers implement it, `Stream` the order in which messages come out, `StreamCall` a whole call
-- of streamIncomingMessages, `Login` and `Metadata` how a user is found, `Race` what two handlers do
-- when they interleave, and `Handlers` any number of them.
pub mod Defs
pub mod Mail
pub mod Refine
pub mod Stream
pub mod StreamCall
pub mod Login
pub mod Race
pub mod Handlers
pub mod Metadata
mod Tests
