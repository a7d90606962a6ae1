-- ===== src/Mesh/Models.antt =====
-- The rows that the mesh writes, from apps/api/osaip_api/models.py, and the database session.
-- An identifier (a UUID) is a number, whose order is that of its text; a time is a count of
-- microseconds. Columns with a CHECK constraint are enumerations.
use osaip.Base.{ℕ, String, Bool, Option, List}
use osaip.Guardrails.Types.{Text, GuardrailEvent}

pub data ScopeType : Type 0 where
  project user connection agent : ScopeType

pub data Period : Type 0 where
  day month : Period

pub data QuotaAction : Type 0 where
  warn block : QuotaAction

pub record Quota : Type 0 where
  pub scope_type : ScopeType
  pub scope_id : ℕ
  pub period : Period
  pub limit_cost_micros : Option ℕ
  pub limit_calls : Option ℕ
  pub action : QuotaAction

pub record QuotaReservation : Type 0 where
  pub id : ℕ
  pub scope_type : ScopeType
  pub scope_id : ℕ
  pub ts : ℕ
  pub estimated_micros : ℕ
  pub settled_micros : Option ℕ
  pub call_id : Option ℕ

pub record LlmCall : Type 0 where
  pub id : ℕ
  pub ts : ℕ
  pub project_id : Option ℕ
  pub user_id : Option ℕ
  pub agent_id : Option ℕ
  pub trace_id : Option ℕ
  pub span_id : Option ℕ
  pub job_id : Option ℕ
  pub job_step_id : Option ℕ
  pub row_key : Option String
  pub connection_id : Option ℕ
  pub provider : String
  pub model : String
  pub model_version : Option String
  pub purpose : String
  pub tokens_in : ℕ
  pub tokens_out : ℕ
  pub tokens_estimated : Bool
  pub cost_micros : ℕ
  pub currency : String
  pub pricing_unknown : Bool
  pub latency_ms : ℕ
  pub cache_hit : Bool
  pub status : String
  pub guardrail_events : List GuardrailEvent
  pub request_hash : Option String

pub record LlmCallMessage : Type 0 where
  pub id : ℕ
  pub call_id : ℕ
  pub seq : ℕ
  pub role : String
  pub content_redacted : Text
  pub content_raw : Option Text

pub record LlmCache : Type 0 where
  pub request_hash : String
  pub connection_id : Option ℕ
  pub project_id : Option ℕ
  pub content : Text
  pub model_version : Option String
  pub tokens_estimated : Bool
  pub tokens_in : ℕ
  pub tokens_out : ℕ
  pub expires_at : ℕ

pub record GuardrailEventRow : Type 0 where
  pub id : ℕ
  pub call_id : Option ℕ
  pub project_id : Option ℕ
  pub event : GuardrailEvent

pub record Trace : Type 0 where
  pub trace_id : ℕ
  pub root_kind : String
  pub project_id : Option ℕ
  pub span_count : ℕ
  pub total_cost_micros : ℕ

pub record Span : Type 0 where
  pub span_id : ℕ
  pub trace_id : ℕ
  pub name : String
  pub t0 : ℕ
  pub t1 : ℕ
  pub tokens : ℕ
  pub cost_micros : ℕ
  pub status : String

pub record Notification : Type 0 where
  pub user_id : ℕ
  pub scope_type : ScopeType
  pub scope_id : ℕ
  pub period : Period
  pub dimension : Option String

-- A row of the audit log, as far as the mesh writes it.
pub record AuditEntry : Type 0 where
  pub actor_id : Option ℕ
  pub project_id : Option ℕ
  pub action : String
  pub object_id : Option ℕ
  pub event : GuardrailEvent

pub record Db : Type 0 where
  pub quotas : List Quota
  pub reservations : List QuotaReservation
  pub calls : List LlmCall
  pub messages : List LlmCallMessage
  pub cache : List LlmCache
  pub events : List GuardrailEventRow
  pub traces : List Trace
  pub spans : List Span
  pub notifications : List Notification
  pub audit : List AuditEntry

-- A transaction: what is committed, what it has made of that, and the next fresh identifier.
pub record Session : Type 0 where
  pub committed : Db
  pub current : Db
  pub next_id : ℕ

abbrev pub commit : Session → Session
commit s = record s { committed = s.current }

abbrev pub rollback : Session → Session
rollback s = record s { current = s.committed }
