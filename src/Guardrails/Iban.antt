-- ===== src/Guardrails/Iban.antt =====
-- `is_valid_iban` of packages/guardrails/osaip_guardrails/detectors.py, on ASCII text.
mod Tests
use osaip.Base.{
  ℕ, ◌+◌, ◌-◌, ◌*◌, ◌/◌, ◌%◌, Bool, true, false, not, ◌&&◌, ◌||◌, List, [], ◌∷◌, ◌++◌, keep, map,
  length, take, drop, ltb, leb, ◌==◌, if◌then◌else◌,
}
use osaip.Guardrails.Types.{Text}

is_digit : ℕ → Bool
is_digit c = leb b'0' c && leb c b'9'

is_upper : ℕ → Bool
is_upper c = leb b'A' c && leb c b'Z'

is_lower : ℕ → Bool
is_lower c = leb b'a' c && leb c b'z'

is_alpha : ℕ → Bool
unfolding is_upper is_lower
is_alpha c = is_upper c || is_lower c

-- `str.isalpha`, `str.isdigit` and `str.isalnum` hold of no empty text.
every : (ℕ → Bool) → Text → Bool
every p [] = true
every p (c ∷ cs) = p c && every p cs

nonempty_every : (ℕ → Bool) → Text → Bool
unfolding every
nonempty_every p [] = false
nonempty_every p (c ∷ cs) = every p (c ∷ cs)

upper : ℕ → ℕ
unfolding is_lower
upper c = if is_lower c then c - 32 else c

-- `candidate.replace(" ", "").upper()`
compact : Text → Text
unfolding upper
compact cs = map upper (keep (λ c. not (c == b' ')) cs)

-- `int(c, 36)`, of a digit or a capital.
base36 : ℕ → ℕ
base36 c = if leb c b'9' then c - b'0' else c - b'A' + 10

-- `str(n)`, of a number below 100.
decimal : ℕ → Text
decimal n = if ltb n 10 then (b'0' + n) ∷ [] else (b'0' + n / 10) ∷ (b'0' + n % 10) ∷ []

-- `"".join(str(int(c, 36)) for c in rearranged)`
to_digits : Text → Text
unfolding base36 decimal
to_digits [] = []
to_digits (c ∷ cs) = decimal (base36 c) ++ to_digits cs

-- `int(digits)`, with the value of the digits that are read.
int_from : ℕ → Text → ℕ
int_from acc [] = acc
int_from acc (c ∷ cs) = int_from (acc * 10 + (c - b'0')) cs

rearranged : Text → Text
rearranged cs = drop 4 cs ++ take 4 cs

unfoldable pub is_valid_iban : Text → Bool
unfolding compact is_alpha is_digit nonempty_every to_digits int_from rearranged
is_valid_iban candidate =
    let cs = compact candidate in
    if not (leb 15 (length cs) && leb (length cs) 34)
      || not (nonempty_every is_alpha (take 2 cs))
      || not (nonempty_every is_digit (take 2 (drop 2 cs)))
    then false
    else if not (nonempty_every (λ c. is_alpha c || is_digit c) cs)
    then false
    else int_from 0 (to_digits (rearranged cs)) % 97 == 1
