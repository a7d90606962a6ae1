-- ===== src/Guardrails/Bsn/Tests.antt =====
-- Tests of the 11-proef.
use osaip.Base.{◌≡◌, refl, true, false, [], ◌∷◌, arith}
use osaip.Guardrails.Types.{Text}
use osaip.Guardrails.Bsn.{is_valid_bsn}
use osaip.Guardrails.Bsn.Errors.{
  IsNineDigits, set_char, swap_next, is_valid_bsn-set_char, is_valid_bsn-swap_next,
}

abbrev valid_bsn : Text
valid_bsn = b'1' ∷ b'2' ∷ b'3' ∷ b'4' ∷ b'5' ∷ b'6' ∷ b'7' ∷ b'8' ∷ b'2' ∷ []

is_valid_bsn-valid_bsn : is_valid_bsn valid_bsn ≡ true
unfolding is_valid_bsn
is_valid_bsn-valid_bsn = refl

is_valid_bsn_off_by_one :
    is_valid_bsn (b'1' ∷ b'2' ∷ b'3' ∷ b'4' ∷ b'5' ∷ b'6' ∷ b'7' ∷ b'8' ∷ b'3' ∷ []) ≡ false
unfolding is_valid_bsn
is_valid_bsn_off_by_one = refl

valid_bsn-IsNineDigits : IsNineDigits valid_bsn
valid_bsn-IsNineDigits = omega arith

is_valid_bsn-set_char_example : is_valid_bsn (set_char valid_bsn 4 b'8') ≡ false
is_valid_bsn-set_char_example =
    is_valid_bsn-set_char valid_bsn 4 b'8' b'5' valid_bsn-IsNineDigits (omega arith) refl
      (omega arith) is_valid_bsn-valid_bsn

is_valid_bsn-swap_next_example : is_valid_bsn (swap_next valid_bsn 7) ≡ false
is_valid_bsn-swap_next_example =
    is_valid_bsn-swap_next valid_bsn 7 b'8' b'2' valid_bsn-IsNineDigits refl refl (omega arith)
      is_valid_bsn-valid_bsn
