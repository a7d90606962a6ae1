-- ===== src/Guardrails/Bsn.antt =====
-- `is_valid_bsn` of packages/guardrails/osaip_guardrails/detectors.py. A text is the list of its
-- character codes; `str.isdigit` and `int` are read on ASCII text.
pub mod Errors
mod Tests
use osaip.Base.{
  ℕ, ◌+◌, ◌-◌, ◌*◌, Bool, true, false, not, ◌&&◌, ◌||◌, List, [], ◌∷◌, ◌++◌, keep, length, leb,
  ◌==◌, if◌then◌else◌, take, replicate,
}
use osaip.Guardrails.Types.{Text}
use osaip.Base.Int.{ℤ, sub_ℕ, mod_ℤ}

-- `str.isdigit` of one character, and `int` of a digit.
abbrev pub is_digit : ℕ → Bool
is_digit c = leb b'0' c && leb c b'9'

abbrev pub int_of : ℕ → ℕ
int_of c = c - b'0'

abbrev all_digits : Text → Bool
all_digits [] = true
all_digits (c ∷ cs) = is_digit c && all_digits cs

-- `str.isdigit`: false of the empty text.
abbrev pub isdigit : Text → Bool
isdigit [] = false
isdigit (c ∷ cs) = all_digits (c ∷ cs)

is_separator : ℕ → Bool
is_separator c = c == b'.' || c == b'-' || c == b' '

-- `digits.replace(".", "").replace("-", "").replace(" ", "")`
compact : Text → Text
unfolding is_separator
compact = keep (λ c. not (is_separator c))

-- `compact.zfill(9)`, on a text with no sign.
zfill_nine : Text → Text
zfill_nine cs = replicate (9 - length cs) b'0' ++ cs

all_zero : Text → Bool
all_zero [] = true
all_zero (c ∷ cs) = c == b'0' && all_zero cs

-- `sum(int(d) * (9 - i) for i, d in enumerate(padded[:8]))`, with `w` for `9 - i`.
weighted : ℕ → Text → ℕ
weighted w [] = 0
weighted w (c ∷ cs) = int_of c * w + weighted (w - 1) cs

-- `int(padded[8])`
last_digit : Text → ℕ
last_digit (_ ∷ _ ∷ _ ∷ _ ∷ _ ∷ _ ∷ _ ∷ _ ∷ c ∷ _) = int_of c
last_digit _ = 0

checksum : Text → ℤ
unfolding weighted last_digit
checksum padded = sub_ℕ (weighted 9 (take 8 padded)) (last_digit padded)

unfoldable pub is_valid_bsn : Text → Bool
unfolding compact zfill_nine all_zero checksum
is_valid_bsn digits =
    let cs = compact digits in
    let padded = zfill_nine cs in
    if not (isdigit cs) || not (leb 8 (length cs) && leb (length cs) 9)
    then false
    else if all_zero padded
    then false
    else mod_ℤ (checksum padded) 11 == 0
