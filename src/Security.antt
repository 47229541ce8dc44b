-- ===== src/Security.antt =====
-- security/: the filter of prompts.
pub mod PromptFilter
