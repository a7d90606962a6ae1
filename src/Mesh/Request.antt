-- ===== src/Mesh/Request.antt =====
-- What a model call is asked with and answered with: providers/base.py and the records of
-- pipeline.py in apps/mesh/osaip_mesh.
use osaip.Base.{ℕ, String, Bool, Option, List}
use osaip.Guardrails.Types.{Text, GuardrailEvent}
use osaip.Guardrails.Policy.{PolicyConfig}
use osaip.Mesh.Quotas.{QuotaStatus}

pub record Message : Type 0 where
  pub role : String
  pub content : Text

-- A float enters by what the code reads of it: whether it equals 0, and its text with four digits.
pub record Temperature : Type 0 where
  pub is_zero : Bool
  pub four_digits : String

pub record CompletionRequest : Type 0 where
  pub model : String
  pub messages : List Message
  pub max_tokens : ℕ
  pub temperature : Temperature

pub record CompletionResult : Type 0 where
  pub content : Text
  pub tokens_in : ℕ
  pub tokens_out : ℕ
  pub model_version : Option String
  pub tokens_estimated : Bool

pub record ConnectionInfo : Type 0 where
  pub id : Option ℕ
  pub provider : String
  pub cache_ttl_s : ℕ
  pub audit_mode : String
  pub data_residency : String
  pub name : Option String
  pub policy : PolicyConfig
  pub scope : String
  pub owner_project_id : Option ℕ

pub record CallContext : Type 0 where
  pub project_id : Option ℕ
  pub user_id : Option ℕ
  pub purpose : String
  pub max_classification : String
  pub trace_id : Option ℕ
  pub job_id : Option ℕ
  pub job_step_id : Option ℕ
  pub row_key : Option String

pub record MeshOutcome : Type 0 where
  pub content : Text
  pub tokens_in : ℕ
  pub tokens_out : ℕ
  pub cost_micros : ℕ
  pub currency : String
  pub pricing_unknown : Bool
  pub tokens_estimated : Bool
  pub cache_hit : Bool
  pub latency_ms : ℕ
  pub model_version : Option String
  pub call_id : ℕ
  pub trace_id : ℕ
  pub guardrail_events : List GuardrailEvent
  pub quota_warnings : List QuotaStatus
