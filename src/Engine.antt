-- ===== src/Engine.antt =====
-- packages/engine/osaip_engine.
pub mod LlmRecipes
