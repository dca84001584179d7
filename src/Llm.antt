-- ===== src/Llm.antt =====
-- The replies of language models: crates/wanax-llm/src.
pub mod Json
