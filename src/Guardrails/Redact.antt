-- ===== src/Guardrails/Redact.antt =====
-- packages/guardrails/osaip_guardrails/redact.py.
pub mod Segments
pub mod Privacy
mod Tests
use Prim.Native.Nat.{Ordering}
use Prim.Native.String.{compare}
use osaip.Base.{
  ℕ, ◌+◌, String, Bool, true, false, Option, none, List, [], ◌∷◌, ◌++◌, map, length, take, drop,
  leb, ◌=s◌, if◌then◌else◌,
}
use osaip.Guardrails.Types.{
  Text, Detection, placeholder, GuardrailEvent, StageResult, redact as redacted, pii_counts,
}
use osaip.Guardrails.Detect.{Patterns, detect_all}

-- `sorted(detections, key=lambda d: d.start, reverse=True)`, which keeps the order of equal starts.
insert_desc : Detection → List Detection → List Detection
insert_desc d [] = d ∷ []
insert_desc d (e ∷ ds) = if leb e.start d.start then d ∷ e ∷ ds else e ∷ insert_desc d ds

sort_desc : List Detection → List Detection
unfolding insert_desc
sort_desc [] = []
sort_desc (d ∷ ds) = insert_desc d (sort_desc ds)

-- `redacted[: d.start] + d.placeholder + redacted[d.end :]`
replace : Text → Detection → Text
replace text d = take d.start text ++ (placeholder d ++ drop d.end text)

replace_each : Text → List Detection → Text
replace_each text [] = text
replace_each text (d ∷ ds) = replace_each (replace text d) ds

pub apply_redactions : Text → List Detection → Text
unfolding sort_desc replace replace_each placeholder
apply_redactions text ds = replace_each text (sort_desc ds)

-- `Counter(d.kind for d in detections)`
increment : String → List (String × ℕ) → List (String × ℕ)
increment kind [] = (kind, 1) ∷ []
increment kind ((k, n) ∷ counts) =
    if k =s kind then (k, n + 1) ∷ counts else (k, n) ∷ increment kind counts

counter_from : List (String × ℕ) → List Detection → List (String × ℕ)
unfolding increment
counter_from counts [] = counts
counter_from counts (d ∷ ds) = counter_from (increment d.kind counts) ds

-- `sorted(counts.items())`; the kinds differ, so the counts are never compared.
insert_item : String × ℕ → List (String × ℕ) → List (String × ℕ)
insert_item (k, n) [] = (k, n) ∷ []
insert_item (k, n) ((j, m) ∷ items) =
    let rest = (j, m) ∷ insert_item (k, n) items in
    elim (compare k j) [ Ordering.gt ↦ rest | _ ↦ (k, n) ∷ (j, m) ∷ items ]

sort_items : List (String × ℕ) → List (String × ℕ)
unfolding insert_item
sort_items [] = []
sort_items (item ∷ items) = insert_item item (sort_items items)

unfoldable pub counts_by_kind : List Detection → List (String × ℕ)
unfolding counter_from sort_items
counts_by_kind ds = sort_items (counter_from [] ds)

pii_event : String → List Detection → GuardrailEvent
unfolding counts_by_kind
pii_event stage ds = record {
  stage = stage;
  rule = "pii.regex";
  action = redacted;
  details = pii_counts (counts_by_kind ds) (length ds);
}

pub redact_detections : String → Text → List Detection → StageResult
redact_detections stage text [] = record {
  text = text;
  events = [];
  blocked = false;
  reason = none;
}
redact_detections stage text (d ∷ ds) = record {
  text = apply_redactions text (d ∷ ds);
  events = pii_event stage (d ∷ ds) ∷ [];
  blocked = false;
  reason = none;
}

-- `redact`, with the default `detector_label`.
unfoldable pub redact : Patterns → String → Text → StageResult
unfolding pii_event redact_detections apply_redactions
redact re stage text = redact_detections stage text (detect_all re text)
