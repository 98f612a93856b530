-- ===== src/Ai.antt =====
-- The analysis of an error group by a language model: the prompts, and who answers them.
pub mod Prompt
pub mod Providers
pub mod Bounds
