-- ===== src/Streams.antt =====
-- The streams of encoding/stream.go that the repository implements.
pub mod Instances
pub mod Interface
pub mod Pointers
pub mod Registers
