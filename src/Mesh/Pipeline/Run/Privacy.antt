-- ===== src/Mesh/Pipeline/Run/Privacy.antt =====
-- What a call leaves behind does not depend on what the pre stage redacts.
use osaip.Base.{
  ℕ, ◌≡◌, refl, ap, String, Bool, false, Option, none, some, List, [], ◌∷◌, ◌++◌, ◌=s◌,
  if◌then◌else◌,
}
use osaip.Guardrails.Types.{Text, Detection, GuardrailEvent}
use osaip.Guardrails.Detect.{Patterns}
use osaip.Guardrails.Policy.{PolicyConfig, run_pre_async}
use osaip.Guardrails.Policy.Baseline.{Twins, run_pre_async-Twins}
use osaip.Mesh.Models.{Session, LlmCall}
use osaip.Mesh.Quotas.{Reservation, Checked, within, exceeded}
use osaip.Mesh.Request.{Message, CompletionRequest, ConnectionInfo, CallContext, MeshOutcome}
use osaip.Mesh.Cache.{CachedResponse}
use osaip.Mesh.Ledger.Messages.{record_call-raws}
use osaip.Mesh.Stages.{
  Action, ◌>>=◌, Result, ok, err, run_pre_stage, run_pre_stage-cons, bind-next, enforce_residency,
  PreResult, connection_forbidden, residency_blocked, input_rejected, provider_unavailable,
  quota_exceeded, provider_error, output_rejected, validator_raised,
}
use osaip.Mesh.Pipeline.{
  Env, enforce_connection_scope, ProviderReply, completed, refused, crashed, Built, adapter,
  unavailable, Answer,
}
use osaip.Mesh.Pipeline.Run.{
  Call, outcome, no_answer, record_answer, settle_call, record_failure, settle_post, conclude,
  bill_reply, answer_call, after_reserve, with_provider, redacted_call, after_pre, run_pipeline,
}

module _ (c : Call) (raws : List Message)
    (quiet : (c.connection.audit_mode =s "full") ≡ false) where
  abbrev twin : Call
  twin = record c { raw_messages = raws }

  record_answer-raws :
      (answer : Answer) (events : List GuardrailEvent) (text : Option Text) (status : String)
      (trace_id span_id : ℕ) (s : Session)
      → record_answer c answer events text status trace_id span_id s
        ≡ record_answer twin answer events text status trace_id span_id s
  unfolding record_answer
  record_answer-raws answer events text status trace_id span_id s =
      record_call-raws _ _ _ _ _ s quiet

  settle_call-raws :
      (answer : Answer) (reservation : Reservation) (events : List GuardrailEvent)
      (text : Option Text) (ttl : ℕ) (status : String) (s : Session)
      → settle_call c answer reservation events text ttl status s
        ≡ settle_call twin answer reservation events text ttl status s
  unfolding settle_call
  settle_call-raws answer reservation events text ttl status s =
      rw (record_answer-raws answer events text status) refl

  record_failure-raws :
      (reservation : Reservation) (s : Session)
      → record_failure c reservation s ≡ record_failure twin reservation s
  unfolding record_failure
  record_failure-raws reservation s = rw (record_answer-raws no_answer [] none "error") refl

  settle_post-raws :
      (answer : Answer) (reservation : Reservation) (events : List GuardrailEvent)
      (cacheable : Bool) (post : Result (Text × List GuardrailEvent)) (s : Session)
      → settle_post c answer reservation events cacheable post s
        ≡ settle_post twin answer reservation events cacheable post s
  unfolding settle_post
  settle_post-raws answer reservation events cacheable (ok (text, post_events)) s =
      ap
        (λ (settled : (LlmCall × ℕ) × Session). (
          ok (outcome answer settled.0.0 settled.0.1 (events ++ post_events) reservation),
          settled.1,
        ))
        (settle_call-raws answer reservation (events ++ post_events) (some text)
          (if cacheable then c.connection.cache_ttl_s else 0) "ok" s)
  settle_post-raws answer reservation events cacheable (err (output_rejected post_events)) s =
      ap (λ (settled : (LlmCall × ℕ) × Session). (err (output_rejected post_events), settled.1))
        (settle_call-raws answer reservation (events ++ post_events) none 0 "blocked" s)
  settle_post-raws answer reservation events cacheable (err connection_forbidden) s = refl
  settle_post-raws answer reservation events cacheable (err residency_blocked) s = refl
  settle_post-raws answer reservation events cacheable (err (input_rejected es)) s = refl
  settle_post-raws answer reservation events cacheable (err (provider_unavailable m)) s = refl
  settle_post-raws answer reservation events cacheable (err (quota_exceeded q)) s = refl
  settle_post-raws answer reservation events cacheable (err (provider_error m)) s = refl
  settle_post-raws answer reservation events cacheable (err validator_raised) s = refl

  bill_reply-raws :
      (reservation : Reservation) (events : List GuardrailEvent) (cacheable : Bool)
      (reply : ProviderReply) (s : Session)
      → bill_reply c reservation events cacheable reply s
        ≡ bill_reply twin reservation events cacheable reply s
  unfolding bill_reply conclude
  bill_reply-raws reservation events cacheable (completed result) s =
      settle_post-raws _ reservation events cacheable _ s
  bill_reply-raws reservation events cacheable (refused message) s =
      rw (record_failure-raws reservation s) refl
  bill_reply-raws reservation events cacheable crashed s =
      rw (record_failure-raws reservation s) refl

  answer_call-raws :
      (provider : CompletionRequest → ProviderReply) (reservation : Reservation)
      (events : List GuardrailEvent) (cacheable : Bool) (cached : Option CachedResponse)
      (s : Session)
      → answer_call c provider reservation events cacheable cached s
        ≡ answer_call twin provider reservation events cacheable cached s
  unfolding answer_call conclude
  answer_call-raws provider reservation events cacheable (some cached) s =
      settle_post-raws _ reservation events cacheable _ s
  answer_call-raws provider reservation events cacheable none s =
      bill_reply-raws reservation events cacheable (provider c.request) s

  after_reserve-raws :
      (provider : CompletionRequest → ProviderReply) (events : List GuardrailEvent)
      (reserved : Checked Reservation × Session)
      → after_reserve c provider events reserved ≡ after_reserve twin provider events reserved
  unfolding after_reserve
  after_reserve-raws provider events (within reservation, s) =
      answer_call-raws provider reservation events _ _ _
  after_reserve-raws provider events (exceeded status, s) = refl

  with_provider-raws :
      (events : List GuardrailEvent) (built : Built) (s : Session)
      → with_provider c events built s ≡ with_provider twin events built s
  unfolding with_provider
  with_provider-raws events (adapter provider) s = after_reserve-raws provider events _
  with_provider-raws events (unavailable message) s = refl

-- The messages are twins one by one, and the pre stage refuses none.
unfoldable pub TwinMessages :
    Patterns → (Text → List Detection) → PolicyConfig → List Message → List Message → Type 0
TwinMessages re analyze policy [] [] = Unit
TwinMessages re analyze policy (m ∷ ms) (m' ∷ ms') =
    (m.role ≡ m'.role)
    × (Twins re m.content m'.content
        × (((run_pre_async re analyze m.content policy).blocked ≡ false)
            × TwinMessages re analyze policy ms ms'))
TwinMessages re analyze policy [] (m ∷ ms) = ⊥
TwinMessages re analyze policy (m ∷ ms) [] = ⊥

run_pre_stage-TwinMessages :
    (re : Patterns) (analyze : Text → List Detection) (policy : PolicyConfig)
    (ms ms' : List Message)
    → TwinMessages re analyze policy ms ms'
    → run_pre_stage re analyze policy ms ≡ run_pre_stage re analyze policy ms'
unfolding TwinMessages
run_pre_stage-TwinMessages re analyze policy [] [] t = refl
run_pre_stage-TwinMessages re analyze policy (m ∷ ms) (m' ∷ ms') (role, (twins, (free, rest))) =
    run_pre_stage-cons re analyze policy m m' ms ms' role
      (run_pre_async-Twins re analyze policy m.content m'.content twins free)
      (run_pre_stage-TwinMessages re analyze policy ms ms' rest)
run_pre_stage-TwinMessages re analyze policy [] (m ∷ ms) t = absurd t
run_pre_stage-TwinMessages re analyze policy (m ∷ ms) [] t = absurd t

after_pre-raws :
    (env : Env) (connection : ConnectionInfo) (context : CallContext) (request : CompletionRequest)
    (messages : List Message) (event : GuardrailEvent) (pre : Result PreResult) (s : Session)
    → (connection.audit_mode =s "full") ≡ false
    → after_pre env connection context request event pre s
      ≡ after_pre env connection context (record request { messages = messages }) event pre s
unfolding after_pre redacted_call
after_pre-raws env connection context request messages event (ok pre) s quiet =
    with_provider-raws (redacted_call env connection context request pre.messages) messages quiet
      (event ∷ pre.events) env.make_provider s
after_pre-raws env connection context request messages event (err e) s quiet = refl

-- Unless the audit mode is `full`, two requests that differ only inside the detected spans of their
-- messages have the same outcome: the caller is answered the same, and the session is left the same,
-- in what is committed and in what is not: in the ledger and its messages, the cache, the events, the
-- traces, the holds and the notifications. It is assumed that the pre stage refuses no message and
-- that the two requests are scanned alike.
pub run_pipeline-TwinMessages :
    (env : Env) (connection : ConnectionInfo) (context : CallContext) (request : CompletionRequest)
    (messages : List Message) (s : Session)
    → (connection.audit_mode =s "full") ≡ false
    → TwinMessages env.re env.analyze connection.policy request.messages messages
    → run_pipeline env connection context request s
      ≡ run_pipeline env connection context (record request { messages = messages }) s
unfolding run_pipeline
run_pipeline-TwinMessages env connection context request messages s quiet twins =
    bind-next (enforce_connection_scope connection context) (λ u. rest request) (λ u. rest other)
      (λ u. bind-next (enforce_residency context connection) (after request) (after other) same) s
  where
    other : CompletionRequest
    other = record request { messages = messages }

    after : CompletionRequest → GuardrailEvent → Action MeshOutcome
    after r event =
        after_pre env connection context r event
          (run_pre_stage env.re env.analyze connection.policy r.messages)

    rest : CompletionRequest → Action MeshOutcome
    rest r = enforce_residency context connection >>= after r

    same : (event : GuardrailEvent) (t : Session) → after request event t ≡ after other event t
    same event t =
        rw
          (run_pre_stage-TwinMessages env.re env.analyze connection.policy request.messages messages
            twins)
          (after_pre-raws env connection context request messages event
            (run_pre_stage env.re env.analyze connection.policy messages) t quiet)
