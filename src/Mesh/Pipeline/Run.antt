-- ===== src/Mesh/Pipeline/Run.antt =====
-- apps/mesh/osaip_mesh/pipeline.py: the settle step, the record of a failure and `run_pipeline`.
pub mod Gate
pub mod Ledgered
pub mod Privacy
mod Tests
use osaip.Base.{
  ℕ, ◌+◌, String, Bool, true, false, not, ◌&&◌, Option, none, some, List, [], ◌∷◌, ◌++◌, ltb,
  if◌then◌else◌,
}
use osaip.Guardrails.Types.{Text, GuardrailEvent}
use osaip.Mesh.Models.{Session, Db, LlmCall, commit, rollback}
use osaip.Mesh.Cost.{compute_cost}
use osaip.Mesh.Quotas.{Reservation, Checked, within, exceeded, reserve, settle}
use osaip.Mesh.Request.{
  Message, CompletionRequest, CompletionResult, ConnectionInfo, CallContext, MeshOutcome,
}
use osaip.Mesh.Cache.{CachedResponse, compute_request_hash, is_cacheable, cache_lookup, cache_store}
use osaip.Mesh.Ledger.{record_call, ensure_trace, record_span}
use osaip.Mesh.Stages.{
  Error, Result, ok, err, connection_forbidden, provider_unavailable, quota_exceeded,
  provider_error, output_rejected, Action, ◌>>=◌, persist_events, enforce_residency, PreResult,
  run_pre_stage, run_post_stage,
}
use osaip.Mesh.Pipeline.{
  ProviderReply, completed, refused, crashed, Built, adapter, unavailable, Env,
  enforce_connection_scope, scopes_of, worst_case_micros, Answer, root_kind, span_status, call_span,
  ledger_entry, with_answer, audited_text, cache_row, notify_crossings,
}

-- What the steps of one call share.
pub record Call : Type 0 where
  pub env : Env
  pub connection : ConnectionInfo
  pub context : CallContext
  pub request : CompletionRequest
  pub redacted_messages : List Message
  pub raw_messages : List Message
  pub request_hash : String

-- `if cache_ttl_s > 0 and not cache_hit: await cache_store(...)`
store_answer : Call → Answer → ℕ → Db → Db
unfolding cache_row
store_answer c answer ttl_s db =
    if ltb 0 ttl_s && not answer.cache_hit
    then cache_store (cache_row c.connection c.context answer.result c.request_hash)
        c.env.settled_at ttl_s db
    else db

-- The end of `_settle_call`, from `persist_events` to the commit.
finish_call :
    Call → Answer → Reservation → List GuardrailEvent → ℕ → LlmCall × Session → LlmCall × Session
unfolding store_answer notify_crossings
finish_call c answer reservation events ttl_s (call, s) =
    let s' = persist_events events (some call.id) c.context.project_id s in
    (
      call,
      commit (record s' {
        current = notify_crossings reservation c.context.user_id (
            settle reservation answer.cost_micros (some call.id)
              (store_answer c answer ttl_s s'.current));
      }),
    )

-- `record_call` of `_settle_call`, with the answer where it may be audited.
pub record_answer :
    Call → Answer → List GuardrailEvent → Option Text → String → ℕ → ℕ → Session → LlmCall × Session
unfolding ledger_entry with_answer audited_text
record_answer c answer events audited status trace_id span_id =
    record_call
      (ledger_entry c.env c.connection c.context c.request answer events status c.request_hash
        trace_id span_id)
      (with_answer audited (audited_text audited) c.redacted_messages)
      (with_answer audited answer.result.content c.raw_messages) c.connection.audit_mode

answer_span : Call → Answer → String → ℕ → Session → ℕ × Session
unfolding call_span span_status
answer_span c answer status trace_id s =
    let (span, s') =
      record_span
        (call_span c.env c.connection c.request trace_id
          (answer.result.tokens_in + answer.result.tokens_out) answer.cost_micros
          (span_status status))
        s in
    (span.span_id, s')

-- `_settle_call`: the ledger row and the trace it belongs to.
pub settle_call :
    Call
    → Answer
    → Reservation
    → List GuardrailEvent
    → Option Text
    → ℕ
    → String
    → Session
    → (LlmCall × ℕ) × Session
unfolding finish_call record_answer answer_span root_kind
settle_call c answer reservation events audited ttl_s status s =
    let (trace_id, s1) =
      ensure_trace c.context.trace_id (root_kind c.context) c.context.project_id s in
    let (span_id, s2) = answer_span c answer status trace_id s1 in
    let (call, s3) =
      finish_call c answer reservation events ttl_s
        (record_answer c answer events audited status trace_id span_id s2) in
    ((call, trace_id), s3)

-- The row of a failed call: no tokens, no cost, no events.
no_answer : Answer
no_answer = record {
  result = record {
    content = [];
    tokens_in = 0;
    tokens_out = 0;
    model_version = none;
    tokens_estimated = false;
  };
  cost_micros = 0;
  currency = "EUR";
  pricing_unknown = false;
  cache_hit = false;
}

-- `_record_failure`; the reason goes to the span's payload, which is not a column of the model.
pub record_failure : Call → Reservation → Session → Session
unfolding no_answer record_answer answer_span root_kind
record_failure c reservation s =
    let (trace_id, s1) =
      ensure_trace c.context.trace_id (root_kind c.context) c.context.project_id (rollback s) in
    let (span_id, s2) = answer_span c no_answer "error" trace_id s1 in
    let (call, s3) = record_answer c no_answer [] none "error" trace_id span_id s2 in
    commit (record s3 { current = settle reservation 0 none s3.current })

outcome : Answer → LlmCall → ℕ → List GuardrailEvent → Reservation → MeshOutcome
outcome answer call trace_id events reservation = record {
  content = answer.result.content;
  tokens_in = answer.result.tokens_in;
  tokens_out = answer.result.tokens_out;
  cost_micros = answer.cost_micros;
  currency = answer.currency;
  pricing_unknown = answer.pricing_unknown;
  tokens_estimated = answer.result.tokens_estimated;
  cache_hit = answer.cache_hit;
  latency_ms = call.latency_ms;
  model_version = answer.result.model_version;
  call_id = call.id;
  trace_id = trace_id;
  guardrail_events = events;
  quota_warnings = reservation.warnings;
}

-- A refused answer is settled like one that is given, but neither audited nor cached.
pub settle_post :
    Call
    → Answer
    → Reservation
    → List GuardrailEvent
    → Bool
    → Result (Text × List GuardrailEvent)
    → Action MeshOutcome
unfolding settle_call outcome
settle_post c answer reservation events cacheable (ok (audited, post_events)) s =
    let ttl_s = if cacheable then c.connection.cache_ttl_s else 0 in
    let ((call, trace_id), s') =
      settle_call c answer reservation (events ++ post_events) (some audited) ttl_s "ok" s in
    (ok (outcome answer call trace_id (events ++ post_events) reservation), s')
settle_post c answer reservation events cacheable (err (output_rejected post_events)) s =
    let (_, s') = settle_call c answer reservation (events ++ post_events) none 0 "blocked" s in
    (err (output_rejected post_events), s')
settle_post c answer reservation events cacheable (err e) s = (err e, s)

pub conclude : Call → Answer → Reservation → List GuardrailEvent → Bool → Action MeshOutcome
unfolding settle_post
conclude c answer reservation events cacheable =
    settle_post c answer reservation events cacheable
      (run_post_stage c.env.re c.env.validate answer.result.content c.connection.policy)

-- A hit spends nothing.
hit_answer : CachedResponse → Answer
hit_answer cached = record {
  result = record {
    content = cached.content;
    tokens_in = cached.tokens_in;
    tokens_out = cached.tokens_out;
    model_version = cached.model_version;
    tokens_estimated = cached.tokens_estimated;
  };
  cost_micros = 0;
  currency = "EUR";
  pricing_unknown = false;
  cache_hit = true;
}

billed_answer : Call → CompletionResult → Answer
billed_answer c result =
    let cost =
      compute_cost c.env.prices c.connection.provider c.request.model result.tokens_in
        result.tokens_out in
    record {
      result = result;
      cost_micros = cost.cost_micros;
      currency = cost.currency;
      pricing_unknown = cost.pricing_unknown;
      cache_hit = false;
    }

-- `_invoke`, and what the pipeline does with its result.
pub bill_reply :
    Call → Reservation → List GuardrailEvent → Bool → ProviderReply → Action MeshOutcome
unfolding conclude record_failure billed_answer
bill_reply c reservation events cacheable (completed result) s =
    conclude c (billed_answer c result) reservation events cacheable s
bill_reply c reservation events cacheable (refused message) s =
    (err (provider_error message), record_failure c reservation s)
bill_reply c reservation events cacheable crashed s = (
  err (provider_error "The model provider could not be reached."),
  record_failure c reservation s,
)

-- With the lookup done and the read transaction released.
pub answer_call :
    Call
    → (CompletionRequest → ProviderReply)
    → Reservation
    → List GuardrailEvent
    → Bool
    → Option CachedResponse
    → Action MeshOutcome
unfolding bill_reply hit_answer
answer_call c provider reservation events cacheable (some cached) s =
    conclude c (hit_answer cached) reservation events cacheable s
answer_call c provider reservation events cacheable none s =
    bill_reply c reservation events cacheable (provider c.request) s

-- `cache_lookup(session, request_hash) if cacheable else None`
look_up : Call → Bool → Session → Option CachedResponse
look_up c cacheable s =
    if cacheable then cache_lookup s.current c.env.looked_up_at c.request_hash else none

-- From the reservation on.
pub after_reserve :
    Call
    → (CompletionRequest → ProviderReply)
    → List GuardrailEvent
    → Checked Reservation × Session
    → Result MeshOutcome × Session
unfolding answer_call look_up
after_reserve c provider events (exceeded status, s) = (err (quota_exceeded status), s)
after_reserve c provider events (within reservation, s) =
    let cacheable =
      is_cacheable c.connection.cache_ttl_s c.context.purpose c.request.temperature.is_zero in
    answer_call c provider reservation events cacheable (look_up c cacheable s) (rollback s)

-- From `make_provider()` on.
pub with_provider : Call → List GuardrailEvent → Built → Action MeshOutcome
unfolding after_reserve
with_provider c events (unavailable message) s = (err (provider_unavailable message), s)
with_provider c events (adapter provider) s = after_reserve c provider events (
    reserve c.env.calendar c.env.reserved_at
      (worst_case_micros c.env c.connection.provider c.request) (scopes_of c.connection c.context)
      s)

-- The call after the pre stage: the provider is given the redacted messages.
pub redacted_call : Env → ConnectionInfo → CallContext → CompletionRequest → List Message → Call
redacted_call env connection context request redacted =
    let provider_request = record request { messages = redacted } in
    record {
      env = env;
      connection = connection;
      context = context;
      request = provider_request;
      redacted_messages = redacted;
      raw_messages = request.messages;
      request_hash =
          compute_request_hash env.hash connection.id context.project_id provider_request redacted;
    }

pub after_pre :
    Env
    → ConnectionInfo
    → CallContext
    → CompletionRequest
    → GuardrailEvent
    → Result PreResult
    → Action MeshOutcome
unfolding with_provider redacted_call
after_pre env connection context request residency_event (err e) s = (err e, s)
after_pre env connection context request residency_event (ok pre) s =
    with_provider (redacted_call env connection context request pre.messages)
      (residency_event ∷ pre.events) env.make_provider s

unfoldable pub run_pipeline :
    Env → ConnectionInfo → CallContext → CompletionRequest → Action MeshOutcome
unfolding after_pre
run_pipeline env connection context request = do
  _ ← enforce_connection_scope connection context
  residency_event ← enforce_residency context connection
  after_pre env connection context request residency_event
      (run_pre_stage env.re env.analyze connection.policy request.messages)
