-- ===== src/Guardrails.antt =====
-- backend/app/ai/guardrails.py: what an assistant may answer.
pub mod History
pub mod Messages
pub mod Generate
pub mod Judged
