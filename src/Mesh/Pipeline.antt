-- ===== src/Mesh/Pipeline.antt =====
-- apps/mesh/osaip_mesh/pipeline.py: one model call, from the gate to the settle step. The clock, the
-- calendar, the provider, the hash, and the engines of the stages are parameters.
pub mod Run
use Prim.Native.String.{◌++◌ as ◌+s◌}
use osaip.Base.{
  ℕ, ◌+◌, String, Bool, true, false, not, ◌&&◌, ◌||◌, Option, none, some, List, [], ◌∷◌, ◌++◌,
  length, leb, ltb, ◌==◌, ◌=s◌, if◌then◌else◌,
}
use osaip.Guardrails.Types.{Text, Detection, GuardrailEvent}
use osaip.Guardrails.Json.{Json}
use osaip.Guardrails.Detect.{Patterns}
use osaip.Mesh.Models.{
  Session, Db, LlmCall, LlmCache, Span, Notification, ScopeType, commit, rollback,
}
use osaip.Mesh.Cost.{PriceTable, CostResult, compute_cost, estimate_tokens}
use osaip.Mesh.Quotas.{
  Scope, QuotaStatus, Reservation, Calendar, Checked, within, exceeded, exceeded_dimension,
  just_crossed, reserve, settle,
}
use osaip.Mesh.Request.{
  Message, CompletionRequest, CompletionResult, ConnectionInfo, CallContext, MeshOutcome,
}
use osaip.Mesh.Cache.{
  Payload, CachedResponse, compute_request_hash, is_cacheable, cache_lookup, cache_store,
}
use osaip.Mesh.Ledger.{record_call, ensure_trace, record_span}
use osaip.Mesh.Stages.{
  Error, Result, ok, err, connection_forbidden, provider_unavailable, quota_exceeded,
  provider_error, output_rejected, Action, ◌>>=◌, persist_events, enforce_residency, PreResult,
  run_pre_stage, run_post_stage,
}

pub data ProviderReply : Type 0 where
  completed : CompletionResult → ProviderReply
  refused : String → ProviderReply
  crashed : ProviderReply

-- `make_provider()`: an adapter, or the message of the error that building it raised.
pub data Built : Type 0 where
  adapter : (CompletionRequest → ProviderReply) → Built
  unavailable : String → Built

pub record Env : Type 0 where
  pub re : Patterns
  pub analyze : Text → List Detection
  pub validate : Text → Json → Option (List String)
  pub prices : PriceTable
  pub encoder : Option (Text → ℕ)
  pub calendar : Calendar
  pub hash : Payload → String
  pub make_provider : Built
  pub started_at : ℕ
  pub reserved_at : ℕ
  pub looked_up_at : ℕ
  pub settled_at : ℕ
  pub latency_ms : ℕ

-- `_enforce_connection_scope`
same_project : Option ℕ → ℕ → Bool
same_project none owner = false
same_project (some project) owner = project == owner

owned_by : Option ℕ → Option ℕ → Bool
owned_by project none = true
owned_by project (some owner) = same_project project owner

unfoldable pub enforce_connection_scope : ConnectionInfo → CallContext → Action Unit
unfolding same_project owned_by
enforce_connection_scope connection context s =
    if not (connection.scope =s "project")
    then (ok tt, s)
    else if owned_by context.project_id connection.owner_project_id
    then (ok tt, s)
    else (err connection_forbidden, s)

-- `_scopes`
scope_if : ScopeType → Option ℕ → List Scope → List Scope
scope_if kind none rest = rest
scope_if kind (some id) rest = record { scope_type = kind; scope_id = id } ∷ rest

unfoldable pub scopes_of : ConnectionInfo → CallContext → List Scope
unfolding scope_if
scopes_of connection context =
    scope_if ScopeType.project context.project_id
      (scope_if ScopeType.user context.user_id (scope_if ScopeType.connection connection.id []))

-- `sum(estimate_tokens(m.content) for m in request.messages)`
prompt_tokens : Option (Text → ℕ) → List Message → ℕ
prompt_tokens encoder [] = 0
prompt_tokens encoder (m ∷ ms) = estimate_tokens encoder m.content + prompt_tokens encoder ms

unfoldable pub worst_case_micros : Env → String → CompletionRequest → ℕ
unfolding prompt_tokens
worst_case_micros env provider request =
    (compute_cost env.prices provider request.model (prompt_tokens env.encoder request.messages)
      request.max_tokens).cost_micros

-- What the settle step is told about the answer.
pub record Answer : Type 0 where
  pub result : CompletionResult
  pub cost_micros : ℕ
  pub currency : String
  pub pricing_unknown : Bool
  pub cache_hit : Bool

pub root_kind : CallContext → String
root_kind context = elim context.job_id [ none ↦ "manual" | some _ ↦ "recipe" ]

pub span_status : String → String
span_status status = if status =s "ok" then "ok" else "error"

pub call_span : Env → ConnectionInfo → CompletionRequest → ℕ → ℕ → ℕ → String → Span
call_span env connection request trace_id tokens cost status = record {
  span_id = 0;
  trace_id = trace_id;
  name = connection.provider +s (":" +s request.model);
  t0 = env.started_at;
  t1 = env.settled_at;
  tokens = tokens;
  cost_micros = cost;
  status = status;
}

-- The ledger row; `record_call` gives it its id.
pub ledger_entry :
    Env
    → ConnectionInfo
    → CallContext
    → CompletionRequest
    → Answer
    → List GuardrailEvent
    → String
    → String
    → ℕ
    → ℕ
    → LlmCall
ledger_entry env connection context request answer events status request_hash trace_id span_id =
    record {
      id = 0;
      ts = env.settled_at;
      project_id = context.project_id;
      user_id = context.user_id;
      agent_id = none;
      trace_id = some trace_id;
      span_id = some span_id;
      job_id = context.job_id;
      job_step_id = context.job_step_id;
      row_key = context.row_key;
      connection_id = connection.id;
      provider = connection.provider;
      model = request.model;
      model_version = answer.result.model_version;
      purpose = context.purpose;
      tokens_in = answer.result.tokens_in;
      tokens_out = answer.result.tokens_out;
      tokens_estimated = answer.result.tokens_estimated;
      cost_micros = answer.cost_micros;
      currency = answer.currency;
      pricing_unknown = answer.pricing_unknown;
      latency_ms = env.latency_ms;
      cache_hit = answer.cache_hit;
      status = status;
      guardrail_events = events;
      request_hash = some request_hash;
    }

-- `messages.append(Message(role="assistant", content=...))` where there is an answer to audit.
pub with_answer : Option Text → Text → List Message → List Message
with_answer none content messages = messages
with_answer (some _) content messages =
    messages ++ record { role = "assistant"; content = content } ∷ []

pub audited_text : Option Text → Text
audited_text none = []
audited_text (some text) = text

pub cache_row : ConnectionInfo → CallContext → CompletionResult → String → LlmCache
cache_row connection context result request_hash = record {
  request_hash = request_hash;
  connection_id = connection.id;
  project_id = context.project_id;
  content = result.content;
  model_version = result.model_version;
  tokens_estimated = result.tokens_estimated;
  tokens_in = result.tokens_in;
  tokens_out = result.tokens_out;
  expires_at = 0;
}

-- `_notify_crossings`: a user is told of the warning budgets that this call took over the line.
crossings : ℕ → List QuotaStatus → List Notification
crossings user [] = []
crossings user (w ∷ ws) =
    let rest = crossings user ws in
    if just_crossed w
    then record {
      user_id = user;
      scope_type = w.scope_type;
      scope_id = w.scope_id;
      period = w.period;
      dimension = exceeded_dimension w;
    }
      ∷ rest
    else rest

pub notify_crossings : Reservation → Option ℕ → Db → Db
unfolding crossings
notify_crossings reservation none db = db
notify_crossings reservation (some user) db = record db {
  notifications = db.notifications ++ crossings user reservation.warnings;
}
