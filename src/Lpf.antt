-- ===== src/Lpf.antt =====
-- The lpf module: length-prefixed framing of messages on the streams of a connection.
pub mod Resume
pub mod Store
pub mod CutThrough
pub mod Transport
pub mod OverStream
