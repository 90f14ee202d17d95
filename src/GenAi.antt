-- ===== src/GenAi.antt =====
-- crates/genai: completions by a provider's model, over the genai crate.
pub mod Chat
pub mod Truncate
pub mod Conversation
pub mod Tools
