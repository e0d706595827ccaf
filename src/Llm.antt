-- ===== src/Llm.antt =====
-- The bridge to language models: agent/llm_router.py, which chooses a backend, and agent/llm_loop.py,
-- which lets a model call the agent's tools.
pub mod Router
pub mod Loop
