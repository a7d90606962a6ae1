-- ===== src/Guardrails/Detect.antt =====
-- `find_*` and `detect_all` of packages/guardrails/osaip_guardrails/detectors.py. The engine of
-- Python's `re` is a parameter: for each pattern, the spans of group 1 that `finditer` yields.
pub mod Overlap
use osaip.Base.{
  ℕ, ◌-◌, String, Bool, ◌&&◌, ◌||◌, List, [], ◌∷◌, ◌++◌, map, keep, take, drop, ltb, leb, ◌==◌,
  if◌then◌else◌,
}
use osaip.Guardrails.Types.{Text, Detection}
use osaip.Guardrails.Bsn.{is_valid_bsn}
use osaip.Guardrails.Iban.{is_valid_iban}

pub record Patterns : Type 0 where
  pub bsn : Text → List (ℕ × ℕ)
  pub iban : Text → List (ℕ × ℕ)
  pub email : Text → List (ℕ × ℕ)
  pub phone : Text → List (ℕ × ℕ)

-- `m.group(1)`
slice : Text → ℕ × ℕ → Text
slice text (start, end) = take (end - start) (drop start text)

detection : String → ℕ × ℕ → Detection
detection kind (start, end) = record { kind = kind; start = start; end = end; detector = "regex" }

-- Python's stable `sort` by `(start, -(end - start))`: at one start, the later end comes first.
pub before : Detection → Detection → Bool
before d e = ltb d.start e.start || (d.start == e.start && leb e.end d.end)

pub insert : Detection → List Detection → List Detection
unfolding before
insert d [] = d ∷ []
insert d (e ∷ ds) = if before d e then d ∷ e ∷ ds else e ∷ insert d ds

pub sort : List Detection → List Detection
sort [] = []
sort (d ∷ ds) = insert d (sort ds)

-- The loop over the sorted detections; a cursor of 0 passes the same starts as the code's -1.
pub sweep : ℕ → List Detection → List Detection
sweep cursor [] = []
sweep cursor (d ∷ ds) =
    let kept = d ∷ sweep d.end ds in
    let skipped = sweep cursor ds in if leb cursor d.start then kept else skipped

module _ (re : Patterns) where
  pub find_bsn : Text → List Detection
  unfolding slice detection
  find_bsn text =
      map (detection "bsn") (keep (λ span. is_valid_bsn (slice text span)) (re.bsn text))

  pub find_iban : Text → List Detection
  unfolding slice detection
  find_iban text =
      map (detection "iban") (keep (λ span. is_valid_iban (slice text span)) (re.iban text))

  pub find_email : Text → List Detection
  unfolding detection
  find_email text = map (detection "email") (re.email text)

  pub find_phone : Text → List Detection
  unfolding detection
  find_phone text = map (detection "phone") (re.phone text)

  -- `found`, before it is sorted.
  unfoldable pub found : Text → List Detection
  unfolding find_bsn find_iban find_email find_phone
  found text = find_bsn text ++ (find_iban text ++ (find_email text ++ find_phone text))

  unfoldable pub detect_all : Text → List Detection
  unfolding found sort insert sweep
  detect_all text = sweep 0 (sort (found text))
