-- ===== src/Guardrails.antt =====
-- packages/guardrails/osaip_guardrails: the rules that run before and after a model call.
pub mod Types
pub mod Bsn
pub mod Iban
pub mod Detect
pub mod Redact
pub mod Sovereignty
pub mod Json
pub mod Policy
pub mod Samples
