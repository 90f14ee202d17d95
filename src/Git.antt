-- ===== src/Git.antt =====
-- crates/git: the git backend of `wasi-vcs`.
pub mod Glob
pub mod Diff
pub mod Pins
pub mod Transport
pub mod Refusal
