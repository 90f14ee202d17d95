-- ===== src/Filesystem.antt =====
-- crates/filesystem/src: stores in a local directory tree.
pub mod KeyValue
