-- ===== src/Cursor.antt =====
-- crates/cursor: agents of a Cursor process, over its `sdk.v1` protocol.
pub mod Frames
pub mod Wire
pub mod Rpc
