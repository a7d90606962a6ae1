-- ===== src/Guardrails/Redact/Tests.antt =====
-- A text with a BSN that a phone number overlaps.
use osaip.Base.{◌≡◌, refl, [], ◌∷◌, All, Any, arith}
use osaip.Guardrails.Types.{Detection, codes}
use osaip.Guardrails.Bsn.{is_valid_bsn}
use osaip.Guardrails.Detect.{found, detect_all}
use osaip.Guardrails.Detect.Overlap.{AreApart, Covers, detect_all-AreApart, detect_all-Covers}
use osaip.Guardrails.Samples.{
  spans, with_bsn, with_other_bsn, agree_outside, found-IsInside, same_detections,
}
use osaip.Guardrails.Redact.{redact}
use osaip.Guardrails.Redact.Segments.{segments}
use osaip.Guardrails.Redact.Privacy.{redact-AgreeOutside, redact-segments}

abbrev bsn_span : Detection
bsn_span = record { kind = "bsn"; start = 4; end = 13; detector = "regex" }

detect_all-with_bsn : detect_all spans with_bsn ≡ bsn_span ∷ []
unfolding detect_all is_valid_bsn
detect_all-with_bsn = refl

redact-with_bsn : (redact spans "pre" with_bsn).text ≡ codes "bsn <BSN>.."
unfolding redact is_valid_bsn detect_all
redact-with_bsn = refl

redact-AgreeOutside_example : redact spans "pre" with_bsn ≡ redact spans "pre" with_other_bsn
redact-AgreeOutside_example =
    redact-AgreeOutside spans "pre" with_bsn with_other_bsn refl found-IsInside same_detections
      agree_outside

redact-segments_example :
    (redact spans "pre" with_bsn).text ≡ segments 0 with_bsn (detect_all spans with_bsn)
redact-segments_example = redact-segments spans "pre" with_bsn found-IsInside

detect_all-AreApart_example : AreApart (detect_all spans with_bsn)
detect_all-AreApart_example =
    detect_all-AreApart spans with_bsn (unfold found is_valid_bsn in omega arith)

detect_all-Covers_example :
    All (λ d. Any (Covers d) (detect_all spans with_bsn)) (found spans with_bsn)
detect_all-Covers_example = detect_all-Covers spans with_bsn
