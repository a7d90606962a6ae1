-- ===== src/Guardrails/Policy/Baseline.antt =====
-- No policy turns the redaction off.
use osaip.Base.{
  ◌≡◌, refl, false, Option, none, some, List, All, length, Bool-cases, inl, inr, arith, ℕ,
}
use osaip.Guardrails.Types.{Text, Detection}
use osaip.Guardrails.Detect.{Patterns, found, detect_all}
use osaip.Guardrails.Redact.Privacy.{AgreeOutside, IsInside, redact-AgreeOutside}
use osaip.Guardrails.Policy.{PolicyConfig, too_long, length_block, run_pre, run_pre_async}

-- The texts have one length and the same detections, and differ only inside those.
pub record Twins (re : Patterns) (t t' : Text) : Type 0 where
  pub same_length : length t ≡ length t'
  pub inside : All (IsInside (length t)) (found re t)
  pub same_detections : detect_all re t ≡ detect_all re t'
  pub agree : AgreeOutside t t' (detect_all re t)

too_long-length :
    (t t' : Text) (limit : Option ℕ) → length t ≡ length t' → too_long t limit ≡ too_long t' limit
too_long-length t t' none e = refl
too_long-length t t' (some l) e = rw e

module _ (re : Patterns) (analyze : Text → List Detection) (policy : PolicyConfig)
    (t t' : Text) where
  run_pre-Twins :
      Twins re t t'
      → (run_pre re t policy).blocked ≡ false
      → run_pre re t policy ≡ run_pre re t' policy
  unfolding run_pre length_block
  run_pre-Twins w free =
      let same =
        redact-AgreeOutside re "pre" t t' w.same_length w.inside w.same_detections w.agree in
      let long = too_long-length t t' policy.max_input_chars w.same_length in
      elim (Bool-cases (too_long t policy.max_input_chars)) [
        | inl over ↦ cc (rw over at free)
        | inr fits ↦ rw (fits, ← long, fits) (cc same)
      ]

  blocked-run_pre :
      (run_pre_async re analyze t policy).blocked ≡ false → (run_pre re t policy).blocked ≡ false
  unfolding run_pre_async
  blocked-run_pre h = ground arith

  -- Under every policy, when the pre stage does not refuse a text, it hands on the same result for
  -- every text of that length that has the same detections and differs only inside them. The spans
  -- of the patterns are non-empty and inside the text.
  pub run_pre_async-Twins :
      Twins re t t'
      → (run_pre_async re analyze t policy).blocked ≡ false
      → run_pre_async re analyze t policy ≡ run_pre_async re analyze t' policy
  run_pre_async-Twins w free = run_pre_async_of_run_pre (run_pre-Twins w (blocked-run_pre free))
    where
      run_pre_async_of_run_pre :
          run_pre re t policy ≡ run_pre re t' policy
          → run_pre_async re analyze t policy ≡ run_pre_async re analyze t' policy
      run_pre_async_of_run_pre e = unfold run_pre_async in rw e
