-- ===== src/Mem.antt =====
-- internal/debugger/mem.go: the memory manager of the debugger.
pub mod RegionMap
pub mod Maps
pub mod Blocks
pub mod Manager
pub mod Alloc
pub mod Free
pub mod Invariant
pub mod Pages
mod Tests
