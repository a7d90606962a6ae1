-- ===== src/Worker.antt =====
-- apps/worker/osaip_worker: the job queue of the builds, and the rows of a step that calls a model.
pub mod Queue
pub mod LlmStep
