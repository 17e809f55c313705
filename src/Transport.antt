-- ===== src/Transport.antt =====
-- internal/transport: the components between the outbox and the network.
pub mod Dispatcher
pub mod Backoff
pub mod Message
pub mod Address
pub mod Pull
pub mod Websocket
pub mod Manager
pub mod Loops
