-- ===== src/Mesh/Pipeline/Run/Ledgered.antt =====
-- The exits of a call after the reservation: the ledger and the holds.
use osaip.Base.{
  ℕ, ◌≡◌, refl, ap, ◌∙◌, String, Bool, Option, none, some, List, [], ◌∷◌, ◌++◌, Bool-cases, inl,
  inr, ◌⊎◌, Option-cases, arith, if◌then◌else◌,
}
use osaip.Guardrails.Json.{Json}
use osaip.Guardrails.Types.{Text, GuardrailEvent, StageResult}
use osaip.Guardrails.Policy.{run_post, after_validation}
use osaip.Mesh.Models.{rollback, Session, Db, LlmCall}
use osaip.Mesh.Quotas.{Reservation, within}
use osaip.Mesh.Quotas.Closed.{AllClosed, settle-AllClosed, settle-calls}
use osaip.Mesh.Request.{CompletionRequest, Message, MeshOutcome}
use osaip.Mesh.Cache.{CachedResponse, cache_store}
use osaip.Mesh.Ledger.{record_call, ensure_trace, record_span}
use osaip.Mesh.Stages.{Result, err, validator_raised, answer_of, run_post_stage, persist_events}
use osaip.Mesh.Pipeline.{
  ProviderReply, completed, refused, crashed, Answer, root_kind, notify_crossings,
}
use osaip.Mesh.Pipeline.Run.{
  Call, no_answer, store_answer, finish_call, record_answer, answer_span, settle_call,
  record_failure, settle_post, conclude, bill_reply, answer_call, after_reserve,
}

-- The committed ledger has one row more, and no row of the reservation is open.
pub record IsLedgered (ids : List ℕ) (before : Db) (after : Session) : Type 0 where
  pub call : LlmCall
  pub one_call : after.committed.calls ≡ before.calls ++ call ∷ []
  pub closed : AllClosed ids after.committed

-- The validator raised on the schema of the connection: the exception leaves the pipeline, and the
-- committed data is what it was.
pub record Escapes (c : Call) (before : Db) (after : Result MeshOutcome × Session) : Type 0 where
  pub schema : Json
  pub answer : Text
  pub checked : c.connection.policy.output_schema ≡ some schema
  pub raised : c.env.validate answer schema ≡ none
  pub escaped : after.0 ≡ err validator_raised
  pub unsettled : after.1.committed ≡ before

run_post-cases :
    (c : Call) (text : Text)
    → ((result : StageResult) × (run_post c.env.re c.env.validate text c.connection.policy
          ≡ some result))
      ⊎ ((schema : Json) × (c.connection.policy.output_schema ≡ some schema)
          × (c.env.validate text schema ≡ none)
          × (run_post c.env.re c.env.validate text c.connection.policy ≡ none))
unfolding run_post after_validation
run_post-cases c text = elim (Option-cases c.connection.policy.output_schema) [
  | inl unchecked ↦ rw unchecked (inl (_, refl))
  | inr (schema, checked) ↦ elim (Option-cases (c.env.validate text schema)) [
    | inl raised ↦ rw (checked, raised) (inr (schema, refl, raised, refl))
    | inr ([], valid) ↦ rw (checked, valid) (inl (_, refl))
    | inr (p ∷ ps, invalid) ↦ rw (checked, invalid) (inl (_, refl))
  ]
]

notify_crossings-AllClosed :
    (reservation : Reservation) (user : Option ℕ) (ids : List ℕ) (db : Db)
    → AllClosed ids db
    → AllClosed ids (notify_crossings reservation user db)
unfolding notify_crossings
notify_crossings-AllClosed reservation none ids db h = h
notify_crossings-AllClosed reservation (some user) ids db h = h

notify_crossings-calls :
    (reservation : Reservation) (user : Option ℕ) (db : Db)
    → (notify_crossings reservation user db).calls ≡ db.calls
unfolding notify_crossings
notify_crossings-calls reservation none db = refl
notify_crossings-calls reservation (some user) db = refl

ensure_trace-calls :
    (trace_id : Option ℕ) (kind : String) (project_id : Option ℕ) (s : Session)
    → (ensure_trace trace_id kind project_id s).1.current.calls ≡ s.current.calls
unfolding ensure_trace
ensure_trace-calls none kind project_id s = refl
ensure_trace-calls (some id) kind project_id s = refl

record_call-calls :
    (entry : LlmCall) (redacted raws : List Message) (mode : String) (s : Session)
    → (record_call entry redacted raws mode s).1.current.calls
      ≡ s.current.calls ++ (record_call entry redacted raws mode s).0 ∷ []
unfolding record_call
record_call-calls entry redacted raws mode s = refl

module _ (c : Call) (reservation : Reservation) where
  store_answer-calls :
      (answer : Answer) (ttl : ℕ) (db : Db) → (store_answer c answer ttl db).calls ≡ db.calls
  unfolding store_answer cache_store
  store_answer-calls answer ttl db = ground arith

  finish_call-calls :
      (answer : Answer) (events : List GuardrailEvent) (ttl : ℕ) (w : LlmCall × Session)
      → (finish_call c answer reservation events ttl w).1.committed.calls ≡ w.1.current.calls
  unfolding finish_call persist_events
  finish_call-calls answer events ttl (call, s) =
      notify_crossings-calls reservation c.context.user_id _
      ∙ (settle-calls answer.cost_micros (some call.id) _ reservation
          ∙ store_answer-calls answer ttl _)

  finish_call-AllClosed :
      (answer : Answer) (events : List GuardrailEvent) (ttl : ℕ) (w : LlmCall × Session)
      → AllClosed reservation.ids (finish_call c answer reservation events ttl w).1.committed
  unfolding finish_call
  finish_call-AllClosed answer events ttl (call, s) =
      notify_crossings-AllClosed reservation c.context.user_id reservation.ids _
        (settle-AllClosed answer.cost_micros (some call.id) _ reservation)

  -- The row that is written once the trace and the span are there.
  traced : Session → ℕ × Session
  traced s = ensure_trace c.context.trace_id (root_kind c.context) c.context.project_id s

  written : Answer → List GuardrailEvent → Option Text → String → ℕ × Session → LlmCall × Session
  written answer events text status (trace_id, s) =
      let (span_id, s') = answer_span c answer status trace_id s in
      record_answer c answer events text status trace_id span_id s'

  written-calls :
      (answer : Answer) (events : List GuardrailEvent) (text : Option Text) (status : String)
      (s : Session)
      → (written answer events text status (traced s)).1.current.calls
        ≡ s.current.calls ++ (written answer events text status (traced s)).0 ∷ []
  unfolding written traced record_answer answer_span record_span
  written-calls answer events text status s =
      record_call-calls _ _ _ _ _
      ∙ ap (λ calls. calls ++ (written answer events text status (traced s)).0 ∷ [])
          (ensure_trace-calls c.context.trace_id (root_kind c.context) c.context.project_id s)

  settle_call-IsLedgered :
      (answer : Answer) (events : List GuardrailEvent) (text : Option Text) (ttl : ℕ)
      (status : String) (s : Session)
      → s.current ≡ s.committed
      → IsLedgered reservation.ids s.committed
          (settle_call c answer reservation events text ttl status s).1
  unfolding settle_call written traced
  settle_call-IsLedgered answer events text ttl status s clean =
      let w = written answer events text status (traced s) in
      record {
        call = w.0;
        one_call =
            finish_call-calls answer events ttl w
            ∙ (written-calls answer events text status s ∙ ap (λ db. db.calls ++ w.0 ∷ []) clean);
        closed = finish_call-AllClosed answer events ttl w;
      }

  record_failure-IsLedgered :
      (s : Session) → IsLedgered reservation.ids s.committed (record_failure c reservation s)
  unfolding record_failure written traced
  record_failure-IsLedgered s =
      let w = written no_answer [] none "error" (traced (rollback s)) in
      record {
        call = w.0;
        one_call =
            settle-calls 0 none w.1.current reservation
            ∙ written-calls no_answer [] none "error" (rollback s);
        closed = settle-AllClosed 0 none w.1.current reservation;
      }

  settle_post-IsLedgered :
      (answer : Answer) (events : List GuardrailEvent) (cacheable : Bool) (result : StageResult)
      (s : Session)
      → s.current ≡ s.committed
      → IsLedgered reservation.ids s.committed
          (settle_post c answer reservation events cacheable (answer_of (some result)) s).1
  unfolding settle_post answer_of
  settle_post-IsLedgered answer events cacheable result s clean = elim (Bool-cases result.blocked) [
    | inl blocked ↦
        rw blocked
          (settle_call-IsLedgered answer (events ++ result.events) none 0 "blocked" s clean)
    | inr passed ↦ rw passed (
        settle_call-IsLedgered answer (events ++ result.events) (some result.text)
          (if cacheable then c.connection.cache_ttl_s else 0) "ok" s clean)
  ]

  -- The ways out, from the committed data of before.
  pub Ends : Db → Result MeshOutcome × Session → Type 0
  Ends before after = IsLedgered reservation.ids before after.1 ⊎ Escapes c before after

  conclude-Ends :
      (answer : Answer) (events : List GuardrailEvent) (cacheable : Bool) (s : Session)
      → s.current ≡ s.committed
      → Ends s.committed (conclude c answer reservation events cacheable s)
  unfolding conclude run_post_stage Ends settle_post answer_of
  conclude-Ends answer events cacheable s clean = elim (run_post-cases c answer.result.content) [
    | inl (result, e) ↦ rw e (inl (settle_post-IsLedgered answer events cacheable result s clean))
    | inr (schema, checked, raised, e) ↦ rw e (
        inr (record {
          schema = schema;
          answer = answer.result.content;
          checked = checked;
          raised = raised;
          escaped = refl;
          unsettled = refl;
        }))
  ]

  bill_reply-Ends :
      (events : List GuardrailEvent) (cacheable : Bool) (reply : ProviderReply) (s : Session)
      → s.current ≡ s.committed
      → Ends s.committed (bill_reply c reservation events cacheable reply s)
  unfolding bill_reply Ends
  bill_reply-Ends events cacheable (completed result) s clean =
      conclude-Ends _ events cacheable s clean
  bill_reply-Ends events cacheable (refused message) s clean = inl (record_failure-IsLedgered s)
  bill_reply-Ends events cacheable crashed s clean = inl (record_failure-IsLedgered s)

  answer_call-Ends :
      (provider : CompletionRequest → ProviderReply) (events : List GuardrailEvent)
      (cacheable : Bool) (cached : Option CachedResponse) (s : Session)
      → s.current ≡ s.committed
      → Ends s.committed (answer_call c provider reservation events cacheable cached s)
  unfolding answer_call
  answer_call-Ends provider events cacheable (some cached) s clean =
      conclude-Ends _ events cacheable s clean
  answer_call-Ends provider events cacheable none s clean =
      bill_reply-Ends events cacheable _ s clean

  -- Once the reservation is granted, the call commits exactly one row more to the ledger and leaves
  -- no row of the reservation open, be it an answer, a cache hit, a refused answer, an error of the
  -- provider or its crash; or the validator raised on the output schema of the connection's policy,
  -- the exception leaves the pipeline, and the committed data is as before.
  pub after_reserve-Ends :
      (provider : CompletionRequest → ProviderReply) (events : List GuardrailEvent) (s : Session)
      → IsLedgered reservation.ids s.committed
          (after_reserve c provider events (within reservation, s)).1
        ⊎ Escapes c s.committed (after_reserve c provider events (within reservation, s))
  unfolding after_reserve Ends
  after_reserve-Ends provider events s = answer_call-Ends provider events _ _ (rollback s) refl
