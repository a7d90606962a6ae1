-- ===== src/Guardrails/Samples.antt =====
-- Sample texts with a BSN that a phone number overlaps, for the tests.
use osaip.Base.{zero, suc, ◌≡◌, refl, [], ◌∷◌, All, length, arith}
use osaip.Guardrails.Types.{Text, codes}
use osaip.Guardrails.Bsn.{is_valid_bsn}
use osaip.Guardrails.Detect.{Patterns, found, detect_all}
use osaip.Guardrails.Redact.Privacy.{AgreeOutside, IsInside}
use osaip.Guardrails.Policy.Baseline.{Twins}

abbrev pub spans : Patterns
spans = record {
  bsn = λ t. (4, 13) ∷ [];
  iban = λ t. [];
  email = λ t. [];
  phone = λ t. (6, 15) ∷ [];
}

abbrev pub with_bsn : Text
with_bsn = codes "bsn 123456782.."

abbrev pub with_other_bsn : Text
with_other_bsn = codes "bsn 111222333.."

pub agree_outside : AgreeOutside with_bsn with_other_bsn (detect_all spans with_bsn)
unfolding detect_all is_valid_bsn
agree_outside zero o = refl
agree_outside (suc zero) o = refl
agree_outside (suc (suc zero)) o = refl
agree_outside (suc (suc (suc zero))) o = refl
agree_outside (suc (suc (suc (suc zero)))) o = absurd (omega arith)
agree_outside (suc (suc (suc (suc (suc zero))))) o = absurd (omega arith)
agree_outside (suc (suc (suc (suc (suc (suc zero)))))) o = absurd (omega arith)
agree_outside (suc (suc (suc (suc (suc (suc (suc zero))))))) o = absurd (omega arith)
agree_outside (suc (suc (suc (suc (suc (suc (suc (suc zero)))))))) o = absurd (omega arith)
agree_outside (suc (suc (suc (suc (suc (suc (suc (suc (suc zero))))))))) o = absurd (omega arith)
agree_outside (suc (suc (suc (suc (suc (suc (suc (suc (suc (suc zero)))))))))) o =
    absurd (omega arith)
agree_outside (suc (suc (suc (suc (suc (suc (suc (suc (suc (suc (suc zero))))))))))) o =
    absurd (omega arith)
agree_outside (suc (suc (suc (suc (suc (suc (suc (suc (suc (suc (suc (suc zero)))))))))))) o =
    absurd (omega arith)
agree_outside (suc (suc (suc (suc (suc (suc (suc (suc (suc (suc (suc (suc (suc zero))))))))))))) o =
    refl
agree_outside
      (suc (suc (suc (suc (suc (suc (suc (suc (suc (suc (suc (suc (suc (suc zero)))))))))))))) o =
    refl
agree_outside
      (suc (suc (suc (suc (suc (suc (suc (suc (suc (suc (suc (suc (suc (suc (suc i)))))))))))))))
      o =
    refl

pub found-IsInside : All (IsInside (length with_bsn)) (found spans with_bsn)
unfolding found is_valid_bsn
found-IsInside = omega arith

pub same_detections : detect_all spans with_bsn ≡ detect_all spans with_other_bsn
unfolding detect_all is_valid_bsn
same_detections = refl

pub twins : Twins spans with_bsn with_other_bsn
twins = record {
  same_length = refl;
  inside = found-IsInside;
  same_detections = same_detections;
  agree = agree_outside;
}
