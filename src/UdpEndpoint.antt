-- ===== src/UdpEndpoint.antt =====
-- common/endpoint/UdpEndpointBase.{hpp,cpp}: queues of incoming and outgoing messages and of
-- acknowledgements. `Store` has the loops that drop the oldest entry, `Ack` and `Interrupted` the search for
-- an acknowledgement, `Send`, `Retransmit` and `Unacknowledged` the repeated sending, `Expiry` the end of
-- acknowledgements, `RoundTrip` a message and its acknowledgement between two endpoints, `Duplicates`
-- a message that is sent for nothing, `Network` two endpoints with all their threads, and `Threads`
-- the life of one. `PlainWire` and `Samples` are for tests.
pub mod Defs
pub mod Store
pub mod Ack
pub mod Interrupted
pub mod Send
pub mod Retransmit
pub mod Unacknowledged
pub mod Expiry
pub mod RoundTrip
pub mod Duplicates
pub mod Network
pub mod Threads
pub mod PlainWire
pub mod Samples
mod Tests
