-- ===== src/Core.antt =====
-- src core: the buffer of bytes that every other part passes on, and the fibers that frame messages.
pub mod Buffer
pub mod Fibers
