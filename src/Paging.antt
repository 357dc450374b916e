-- ===== src/Paging.antt =====
-- src/memory/paging.rs: the map lists, the page tables that are built from them, and the walk.
pub mod Normalize
pub mod Level
pub mod Hardware
pub mod Flags
pub mod Table
pub mod Build
pub mod Create
pub mod Dealloc
pub mod Update
pub mod Walk
