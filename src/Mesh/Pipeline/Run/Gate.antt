-- ===== src/Mesh/Pipeline/Run/Gate.antt =====
-- The residency gate comes before everything that a call does.
use mathlib.Core.Path.{subst}
use osaip.Base.{sym, ap, ◌∙◌, ◌+◌, ◌≡◌, refl, false, some, List, [], ◌∷◌, ◌++◌, length, arith}
use osaip.Guardrails.Types.{GuardrailEvent}
use osaip.Guardrails.Sovereignty.{check_residency}
use osaip.Mesh.Models.{Session}
use osaip.Mesh.Request.{CompletionRequest, ConnectionInfo, CallContext, MeshOutcome}
use osaip.Mesh.Stages.{
  Action, run_pre_stage, Result, ok, err, ◌>>=◌, residency_blocked, enforce_residency,
  persist_events,
}
use osaip.Mesh.Pipeline.{Env, enforce_connection_scope}
use osaip.Mesh.Pipeline.Run.{after_pre, run_pipeline}

length-one : {A : Type 0} (xs : List A) (x : A) → length (xs ++ x ∷ []) ≡ length xs + 1
length-one [] x = refl
length-one (y ∷ ys) x = omega (arith, length-one ys x)

-- What `>>=` does with the result of its first step.
follow : {A B : Type 0} → (A → Action B) → Result A × Session → Result B × Session
follow f (ok a, s) = f a s
follow f (err e, s) = (err e, s)

>>=-follow :
    {A B : Type 0} (m : Action A) (f : A → Action B) (s : Session) → (m >>= f) s ≡ follow f (m s)
unfolding follow
>>=-follow {A} {B} m f s =
    elim (m s).0
      as (λ r.
        ◌≡◌ {A = Result B × Session} (elim r [ ok a ↦ f a (m s).1 | err e ↦ (err e, (m s).1) ])
          (follow f (r, (m s).1))) [ ok a ↦ refl | err e ↦ refl ]

-- A refusal of the gate commits the audit row, and nothing to the ledger or the holds.
IsRefused : Session → Result MeshOutcome × Session → Type 0
IsRefused s after =
    (after.0 ≡ err residency_blocked)
    × (after.1.committed.calls ≡ s.current.calls)
    × (after.1.committed.reservations ≡ s.current.reservations)
    × (after.1.committed.messages ≡ s.current.messages)
    × (length after.1.committed.audit ≡ length s.current.audit + 1)

enforce_residency-IsRefused :
    (connection : ConnectionInfo) (context : CallContext) (s : Session)
    (f : GuardrailEvent → Action MeshOutcome)
    → (check_residency
        (some context.max_classification)
        connection.data_residency
        connection.name).0
      ≡ false
    → IsRefused s (follow f (enforce_residency context connection s))
unfolding IsRefused enforce_residency persist_events follow
enforce_residency-IsRefused connection context s f refused =
    rw refused (refl, refl, refl, refl, length-one s.current.audit _)

-- A call whose data the gate does not admit at the connection's residency ends as such, even where
-- the provider cannot be built or the prompt would be refused: nothing is added to the ledger, its
-- messages or the holds, and one row is committed to the audit log. The connection's scope is in
-- order.
pub run_pipeline-residency :
    (env : Env) (connection : ConnectionInfo) (context : CallContext) (request : CompletionRequest)
    (s : Session)
    → enforce_connection_scope connection context s ≡ (ok tt, s)
    → (check_residency
        (some context.max_classification)
        connection.data_residency
        connection.name).0
      ≡ false
    → let after = run_pipeline env connection context request s in
      (after.0 ≡ err residency_blocked)
      × (after.1.committed.calls ≡ s.current.calls)
      × (after.1.committed.reservations ≡ s.current.reservations)
      × (after.1.committed.messages ≡ s.current.messages)
      × (length after.1.committed.audit ≡ length s.current.audit + 1)
unfolding run_pipeline IsRefused follow
run_pipeline-residency env connection context request s scope refused =
    subst (IsRefused s)
      (sym (
        >>=-follow (enforce_connection_scope connection context) (λ u. gated) s
        ∙ (ap (follow (λ u. gated)) scope
            ∙ >>=-follow (enforce_residency context connection) after_gate s)))
      (enforce_residency-IsRefused connection context s after_gate refused)
  where
    after_gate : GuardrailEvent → Action MeshOutcome
    after_gate event =
        after_pre env connection context request event
          (run_pre_stage env.re env.analyze connection.policy request.messages)

    gated : Action MeshOutcome
    gated = enforce_residency context connection >>= after_gate
