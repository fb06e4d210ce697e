-- ===== src/Stream.antt =====
-- stream/include/marlin/stream: a reliable, multiplexed transport over datagrams.
pub mod Types
pub mod Handshake
pub mod Receive
pub mod Send
pub mod Ack
pub mod Skip
pub mod Close
pub mod Wire
pub mod Step
pub mod Conn
pub mod Meets
pub mod Retries
pub mod EndToEnd
pub mod Flight
pub mod Tests
