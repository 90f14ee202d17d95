-- ===== src/Sandbox.antt =====
-- crates/sandbox/src: what a sandboxed guest may reach.
pub mod Address
pub mod Proxy
