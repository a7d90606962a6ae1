-- ===== src/Guardrails/Redact/Privacy.antt =====
-- What a redacted text still tells about the text that was scanned.
use osaip.Base.{
  ℕ, ◌-◌, ◌+◌, ◌≤◌, ◌<◌, ◌≡◌, ◌⊎◌, inl, inr, refl, sym, ◌∙◌, List, [], ◌∷◌, All, All-map_rule,
  length, drop, String, get_elem?, get_elem?-drop, take_ext, list_ext, arith,
}
use osaip.Guardrails.Types.{Text, Detection}
use osaip.Guardrails.Detect.{Patterns, found, detect_all}
use osaip.Guardrails.Detect.Overlap.{AreApart, detect_all-AreApart, detect_all-All}
use osaip.Guardrails.Redact.{apply_redactions, redact_detections, redact}
use osaip.Guardrails.Redact.Segments.{
  AreWithin, AreWithin-after, segments, apply_redactions-segments,
}

-- The position lies in no detection.
abbrev pub Outside : ℕ → List Detection → Type 0
Outside i ds = All (λ d. (i < d.start) ⊎ (d.end ≤ i)) ds

-- The texts agree at every position that lies in no detection.
abbrev pub AgreeOutside : Text → Text → List Detection → Type 0
AgreeOutside t t' ds = (i : ℕ) → Outside i ds → get_elem? t i ≡ get_elem? t' i

-- Agreement from `pos` on, for the part of the texts that is left there.
abbrev AgreeFrom : ℕ → Text → Text → List Detection → Type 0
AgreeFrom pos t t' ds = (i : ℕ) → Outside (pos + i) ds → get_elem? t i ≡ get_elem? t' i

segments-AgreeFrom :
    (n pos : ℕ) (t t' : Text) (ds : List Detection)
    → AreWithin n pos ds
    → AgreeFrom pos t t' ds
    → segments pos t ds ≡ segments pos t' ds
unfolding segments
segments-AgreeFrom n pos t t' [] w h = list_ext t t' (λ i. h i tt)
segments-AgreeFrom n pos t t' (d ∷ ds) w h = cc (
  take_ext (d.start - pos) t t' before_start,
  segments-AgreeFrom n d.end (drop (d.end - pos) t) (drop (d.end - pos) t') ds w.3 after_end,
)
  where
    before_start : (i : ℕ) → i < d.start - pos → get_elem? t i ≡ get_elem? t' i
    before_start i lt = h i (
      inl (omega arith),
      All-map_rule (λ (e : Detection) le. inl (omega arith)) ds (AreWithin-after n d.end ds w.3),
    )

    after_end : AgreeFrom d.end (drop (d.end - pos) t) (drop (d.end - pos) t') ds
    after_end i outside =
        get_elem?-drop (d.end - pos) i t
        ∙ h (d.end - pos + i)
            (inr (omega arith), All-map_rule (λ (e : Detection) o. ground arith) ds outside)
        ∙ sym (get_elem?-drop (d.end - pos) i t')

-- Two texts of one length that differ only inside the detections are redacted to one text: no
-- character of a detected value can be told from the result.
pub apply_redactions-AgreeOutside :
    (t t' : Text) (ds : List Detection)
    → length t ≡ length t'
    → AreWithin (length t) 0 ds
    → AgreeOutside t t' ds
    → apply_redactions t ds ≡ apply_redactions t' ds
apply_redactions-AgreeOutside t t' ds e w h =
    apply_redactions-segments t ds w
    ∙ segments-AgreeFrom (length t) 0 t t' ds w
        (λ i outside. h i (All-map_rule (λ (d : Detection) o. ground arith) ds outside))
    ∙ sym (apply_redactions-segments t' ds (rw e at w))

-- A non-empty span inside a text of length `n`.
abbrev pub IsInside : ℕ → Detection → Type 0
IsInside n d = (d.start < d.end) × (d.end ≤ n)

AreApart-AreWithin :
    (n pos : ℕ) (ds : List Detection)
    → AreApart ds
    → All (IsInside n) ds
    → All (λ d. pos ≤ d.start) ds
    → AreWithin n pos ds
AreApart-AreWithin n pos [] a i s = tt
AreApart-AreWithin n pos (d ∷ ds) a i s =
    (s.0, i.0.0, i.0.1, AreApart-AreWithin n d.end ds a.1 i.1 a.0)

redact_detections-eq :
    (stage : String) (t t' : Text) (ds : List Detection)
    → AreWithin (length t) 0 ds
    → length t ≡ length t'
    → AgreeOutside t t' ds
    → redact_detections stage t ds ≡ redact_detections stage t' ds
unfolding redact_detections
redact_detections-eq stage t t' [] w e h = let same : t ≡ t' = list_ext t t' (λ i. h i tt) in cc
redact_detections-eq stage t t' (d ∷ ds) w e h =
    cc (apply_redactions-AgreeOutside t t' (d ∷ ds) e w h)

redact_detections-text :
    (stage : String) (t : Text) (ds : List Detection)
    → (redact_detections stage t ds).text ≡ apply_redactions t ds
unfolding redact_detections apply_redactions
redact_detections-text stage t [] = refl
redact_detections-text stage t (d ∷ ds) = refl

module _ (re : Patterns) where
  detect_all-AreWithin :
      (t : Text) → All (IsInside (length t)) (found re t) → AreWithin (length t) 0 (detect_all re t)
  detect_all-AreWithin t h =
      AreApart-AreWithin (length t) 0 (detect_all re t)
        (detect_all-AreApart re t (All-map_rule (λ (d : Detection) i. omega arith) (found re t) h))
        (detect_all-All re t (IsInside (length t)) h)
        (All-map_rule (λ (d : Detection) i. omega arith) (detect_all re t)
          (detect_all-All re t (IsInside (length t)) h))

  -- When every span that a pattern yields is non-empty and inside the text, the redaction of two
  -- texts of one length with the same detections, which differ only inside those, is one result,
  -- in the text and in the events.
  pub redact-AgreeOutside :
      (stage : String) (t t' : Text)
      → length t ≡ length t'
      → All (IsInside (length t)) (found re t)
      → detect_all re t ≡ detect_all re t'
      → AgreeOutside t t' (detect_all re t)
      → redact re stage t ≡ redact re stage t'
  unfolding redact
  redact-AgreeOutside stage t t' e h same agree =
      redact_detections-eq stage t t' (detect_all re t) (detect_all-AreWithin t h) e agree ∙ cc same

  -- When every span that a pattern yields is non-empty and inside the text, the redacted text is the
  -- text copied from left to right with a placeholder for each detection that is kept.
  pub redact-segments :
      (stage : String) (t : Text)
      → All (IsInside (length t)) (found re t)
      → (redact re stage t).text ≡ segments 0 t (detect_all re t)
  unfolding redact
  redact-segments stage t h =
      redact_detections-text stage t (detect_all re t)
      ∙ apply_redactions-segments t (detect_all re t) (detect_all-AreWithin t h)
