-- ===== src/Filesystem.antt =====
-- The virtual file system of filesystem/virtual.go: its files, what an open file does, its paths, and its
-- directories and links.
pub mod Contents
pub mod Paths
pub mod Tree
