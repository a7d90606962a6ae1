-- ===== src/Mesh/Stages.antt =====
-- apps/mesh/osaip_mesh/guardrails.py: the stages of a call, as actions on the database session.
use osaip.Base.{
  ◌≡◌, refl, ℕ, ◌+◌, String, Option, none, some, List, [], ◌∷◌, ◌++◌, length, if◌then◌else◌,
}
use osaip.Guardrails.Types.{Text, Detection, GuardrailEvent, StageResult}
use osaip.Guardrails.Json.{Json}
use osaip.Guardrails.Detect.{Patterns}
use osaip.Guardrails.Policy.{PolicyConfig, run_pre_async, run_post}
use osaip.Guardrails.Sovereignty.{check_residency}
use osaip.Mesh.Models.{Session, GuardrailEventRow, commit}
use osaip.Mesh.Quotas.{QuotaStatus}
use osaip.Mesh.Request.{Message, ConnectionInfo, CallContext}

-- The exceptions that leave the pipeline.
pub data Error : Type 0 where
  connection_forbidden : Error
  residency_blocked : Error
  input_rejected : List GuardrailEvent → Error
  provider_unavailable : String → Error
  quota_exceeded : QuotaStatus → Error
  provider_error : String → Error
  output_rejected : List GuardrailEvent → Error
  validator_raised : Error

pub data Result (A : Type 0) : Type 0 where
  ok : A → Result A
  err : Error → Result A

-- What a stage wrote before it raised stays in the session, which comes back beside the error.
abbrev pub Action : Type 0 → Type 0
Action A = Session → Result A × Session

infixl 5 ◌>>=◌
abbrev pub ◌>>=◌ : {A B : Type 0} → Action A → (A → Action B) → Action B
◌>>=◌ m f s = let (r, s') = m s in elim r [ ok a ↦ f a s' | err e ↦ (err e, s') ]

-- What follows a step may be replaced by what agrees with it.
pub bind-next :
    {A B : Type 0} (m : Action A) (f g : A → Action B)
    → ((a : A) (s : Session) → f a s ≡ g a s)
    → (s : Session) → (m >>= f) s ≡ (m >>= g) s
bind-next {B = B} m f g same s =
    elim (m s).0
      as (λ r.
        ◌≡◌ {A = Result B × Session} (elim r [ ok a ↦ f a (m s).1 | err e ↦ (err e, (m s).1) ])
          (elim r [ ok a ↦ g a (m s).1 | err e ↦ (err e, (m s).1) ])) [
            | ok a ↦ same a (m s).1
            | err e ↦ refl
          ]

-- `persist_events`: a row for each event, with fresh ids.
event_rows : ℕ → Option ℕ → Option ℕ → List GuardrailEvent → List GuardrailEventRow
event_rows id call_id project_id [] = []
event_rows id call_id project_id (event ∷ events) =
    record { id = id; call_id = call_id; project_id = project_id; event = event }
    ∷ event_rows (id + 1) call_id project_id events

unfoldable pub persist_events : List GuardrailEvent → Option ℕ → Option ℕ → Session → Session
unfolding event_rows
persist_events events call_id project_id s = record s {
  current = record s.current {
    events = s.current.events ++ event_rows s.next_id call_id project_id events;
  };
  next_id = s.next_id + length events;
}

-- The audit row of a refusal, written last.
write_refusal : CallContext → ConnectionInfo → GuardrailEvent → Session → Session
write_refusal context connection event s = record s {
  current = record s.current {
    audit =
        s.current.audit
        ++ record {
          actor_id = context.user_id;
          project_id = context.project_id;
          action = "llm.residency_blocked";
          object_id = connection.id;
          event = event;
        }
          ∷ [];
  };
}

unfoldable pub enforce_residency : CallContext → ConnectionInfo → Action GuardrailEvent
unfolding persist_events write_refusal
enforce_residency context connection s =
    let (allowed, event) =
      check_residency (some context.max_classification) connection.data_residency connection.name in
    if allowed then (ok event, s) else (
      err residency_blocked,
      commit (
          write_refusal context connection event
            (persist_events (event ∷ []) none context.project_id s)),
    )

pub record PreResult : Type 0 where
  pub messages : List Message
  pub events : List GuardrailEvent

-- One message through the pre stage, with the results so far.
redact_message : Message → StageResult → PreResult → Result PreResult
redact_message message result pre =
    if result.blocked
    then err (input_rejected result.events)
    else ok (record {
      messages = record { role = message.role; content = result.text } ∷ pre.messages;
      events = result.events ++ pre.events;
    })

prepend : Message → StageResult → Result PreResult → Result PreResult
unfolding redact_message
prepend message result (ok pre) = redact_message message result pre
prepend message result (err e) =
    if result.blocked then err (input_rejected result.events) else err e

module _ (re : Patterns) (analyze : Text → List Detection) (policy : PolicyConfig) where
  -- The first message that is refused stops the stage.
  unfoldable pub run_pre_stage : List Message → Result PreResult
  unfolding prepend
  run_pre_stage [] = ok (record { messages = []; events = [] })
  run_pre_stage (m ∷ ms) = prepend m (run_pre_async re analyze m.content policy) (run_pre_stage ms)

prepend-role :
    (m m' : Message) (result : StageResult) (rest : Result PreResult)
    → m.role ≡ m'.role
    → prepend m result rest ≡ prepend m' result rest
unfolding prepend redact_message
prepend-role m m' result (ok pre) e = rw e refl
prepend-role m m' result (err x) e = refl

-- Of a message, the stage reads the role and the scan.
pub run_pre_stage-cons :
    (re : Patterns) (analyze : Text → List Detection) (policy : PolicyConfig) (m m' : Message)
    (ms ms' : List Message)
    → m.role ≡ m'.role
    → run_pre_async re analyze m.content policy ≡ run_pre_async re analyze m'.content policy
    → run_pre_stage re analyze policy ms ≡ run_pre_stage re analyze policy ms'
    → run_pre_stage re analyze policy (m ∷ ms) ≡ run_pre_stage re analyze policy (m' ∷ ms')
unfolding run_pre_stage
run_pre_stage-cons re analyze policy m m' ms ms' role scan rest =
    rw (scan, rest)
      (prepend-role m m' (run_pre_async re analyze m'.content policy)
        (run_pre_stage re analyze policy ms') role)

-- What the validator raises is no OutputRejected.
unfoldable pub answer_of : Option StageResult → Result (Text × List GuardrailEvent)
answer_of none = err validator_raised
answer_of (some result) =
    if result.blocked then err (output_rejected result.events) else ok (result.text, result.events)

unfoldable pub run_post_stage :
    Patterns
    → (Text → Json → Option (List String))
    → Text
    → PolicyConfig
    → Result (Text × List GuardrailEvent)
unfolding answer_of
run_post_stage re validate answer policy = answer_of (run_post re validate answer policy)
