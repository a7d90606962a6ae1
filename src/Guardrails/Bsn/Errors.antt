-- ===== src/Guardrails/Bsn/Errors.antt =====
-- What the 11-proef detects: any one wrong digit, and any two neighbours exchanged.
use osaip.Base.{
  ℕ, zero, suc, ◌≤◌, ◌%◌, true, false, if◌then◌else◌, ◌≡◌, [], ◌∷◌, All, length, arith, refl, some,
  Bool-cases, inl, inr, get_elem?, ◌≢◌, ◌∙◌, ◌==◌, take,
}
use mathlib.Core.Option.{some-injective}
use osaip.Base.Int.{sub_ℕ, mod_ℤ}
use osaip.Guardrails.Types.{Text}
use osaip.Guardrails.Bsn.{
  all_digits, isdigit, compact, all_zero, weighted, last_digit, checksum, zfill_nine, is_valid_bsn,
}

abbrev pub IsDigit : ℕ → Type 0
IsDigit c = (b'0' ≤ c) × (c ≤ b'9')

-- Nine digits, as a BSN is written without separators.
pub record IsNineDigits (xs : Text) : Type 0 where
  pub nine : length xs ≡ 9
  pub digits : All IsDigit xs

-- The text with the character at a position replaced.
abbrev pub set_char : Text → ℕ → ℕ → Text
set_char [] i c = []
set_char (x ∷ xs) zero c = c ∷ xs
set_char (x ∷ xs) (suc i) c = x ∷ set_char xs i c

-- The text with the characters at a position and the next one exchanged.
abbrev pub swap_next : Text → ℕ → Text
swap_next [] i = []
swap_next (x ∷ []) i = x ∷ []
swap_next (x ∷ y ∷ xs) zero = y ∷ x ∷ xs
swap_next (x ∷ y ∷ xs) (suc i) = x ∷ swap_next (y ∷ xs) i

length-set_char : (xs : Text) (k y : ℕ) → length (set_char xs k y) ≡ length xs
length-set_char [] k y = refl
length-set_char (x ∷ xs) zero y = refl
length-set_char (x ∷ xs) (suc k) y = omega (arith, length-set_char xs k y)

set_char-digits : (xs : Text) (k y : ℕ) → All IsDigit xs → IsDigit y → All IsDigit (set_char xs k y)
set_char-digits [] k y h d = tt
set_char-digits (x ∷ xs) zero y h d = (d, h.1)
set_char-digits (x ∷ xs) (suc k) y h d = (h.0, set_char-digits xs k y h.1 d)

length-swap_next : (xs : Text) (k : ℕ) → length (swap_next xs k) ≡ length xs
length-swap_next [] k = refl
length-swap_next (x ∷ []) k = refl
length-swap_next (x ∷ y ∷ xs) zero = refl
length-swap_next (x ∷ y ∷ xs) (suc k) = omega (arith, length-swap_next (y ∷ xs) k)

swap_next-digits : (xs : Text) (k : ℕ) → All IsDigit xs → All IsDigit (swap_next xs k)
swap_next-digits [] k h = tt
swap_next-digits (x ∷ []) k h = h
swap_next-digits (x ∷ y ∷ xs) zero h = (h.1.0, (h.0, h.1.1))
swap_next-digits (x ∷ y ∷ xs) (suc k) h = (h.0, swap_next-digits (y ∷ xs) k h.1)

compact-digits : (xs : Text) → All IsDigit xs → compact xs ≡ xs
unfolding compact
compact-digits [] h = refl
compact-digits (x ∷ xs) h = ground (arith, compact-digits xs h.1)

all_digits-digits : (xs : Text) → All IsDigit xs → all_digits xs ≡ true
all_digits-digits [] h = refl
all_digits-digits (x ∷ xs) h = ground (arith, all_digits-digits xs h.1)

congruent : (s l : ℕ) → mod_ℤ (sub_ℕ s l) 11 ≡ 0 → s % 11 ≡ l % 11
congruent s l h = ground arith

isdigit-nine : (xs : Text) → IsNineDigits xs → isdigit xs ≡ true
isdigit-nine [] n = absurd (omega (arith, n.nine))
isdigit-nine (x ∷ xs) n = all_digits-digits (x ∷ xs) n.digits

zfill_nine-nine : (xs : Text) → length xs ≡ 9 → zfill_nine xs ≡ xs
unfolding zfill_nine
zfill_nine-nine xs e = rw e

-- On nine digits the check is the sum and the test for zero.
is_valid_bsn-nine :
    (xs : Text)
    → IsNineDigits xs
    → is_valid_bsn xs ≡ (if all_zero xs then false else mod_ℤ (checksum xs) 11 == 0)
unfolding is_valid_bsn
is_valid_bsn-nine xs n =
    rw (compact-digits xs n.digits, isdigit-nine xs n, zfill_nine-nine xs n.nine, n.nine)

-- On nine digits the check passes only if the two sides of the sum agree modulo 11.
passes :
    (xs : Text)
    → IsNineDigits xs
    → is_valid_bsn xs ≡ true
    → weighted 9 (take 8 xs) % 11 ≡ last_digit xs % 11
passes xs n v = congruent _ _ (unfold checksum in ground (arith, is_valid_bsn-nine xs n))

-- The two sums cannot both agree when they differ in one digit.
wrong_sum :
    (xs : Text) (k y x : ℕ)
    → IsNineDigits xs
    → IsDigit y
    → get_elem? xs k ≡ some x
    → x ≢ y
    → weighted 9 (take 8 xs) % 11 ≡ last_digit xs % 11
    → weighted 9 (take 8 (set_char xs k y)) % 11 ≡ last_digit (set_char xs k y) % 11
    → ⊥
unfolding weighted last_digit
wrong_sum (a ∷ b ∷ c ∷ d ∷ e ∷ f ∷ g ∷ h ∷ i ∷ []) zero y x n dy at ne s s' =
    ne (omega (arith, some-injective _ _ at))
wrong_sum (a ∷ b ∷ c ∷ d ∷ e ∷ f ∷ g ∷ h ∷ i ∷ []) (suc zero) y x n dy at ne s s' =
    ne (omega (arith, some-injective _ _ at))
wrong_sum (a ∷ b ∷ c ∷ d ∷ e ∷ f ∷ g ∷ h ∷ i ∷ []) (suc (suc zero)) y x n dy at ne s s' =
    ne (omega (arith, some-injective _ _ at))
wrong_sum (a ∷ b ∷ c ∷ d ∷ e ∷ f ∷ g ∷ h ∷ i ∷ []) (suc (suc (suc zero))) y x n dy at ne s s' =
    ne (omega (arith, some-injective _ _ at))
wrong_sum (a ∷ b ∷ c ∷ d ∷ e ∷ f ∷ g ∷ h ∷ i ∷ []) (suc (suc (suc (suc zero)))) y x n dy at ne s
      s' =
    ne (omega (arith, some-injective _ _ at))
wrong_sum (a ∷ b ∷ c ∷ d ∷ e ∷ f ∷ g ∷ h ∷ i ∷ []) (suc (suc (suc (suc (suc zero))))) y x n dy at ne
      s s' =
    ne (omega (arith, some-injective _ _ at))
wrong_sum (a ∷ b ∷ c ∷ d ∷ e ∷ f ∷ g ∷ h ∷ i ∷ []) (suc (suc (suc (suc (suc (suc zero)))))) y x n dy
      at ne s s' =
    ne (omega (arith, some-injective _ _ at))
wrong_sum (a ∷ b ∷ c ∷ d ∷ e ∷ f ∷ g ∷ h ∷ i ∷ []) (suc (suc (suc (suc (suc (suc (suc zero))))))) y
      x n dy at ne s s' =
    ne (omega (arith, some-injective _ _ at))
wrong_sum (a ∷ b ∷ c ∷ d ∷ e ∷ f ∷ g ∷ h ∷ i ∷ [])
      (suc (suc (suc (suc (suc (suc (suc (suc zero)))))))) y x n dy at ne s s' =
    ne (omega (arith, some-injective _ _ at))
wrong_sum (a ∷ b ∷ c ∷ d ∷ e ∷ f ∷ g ∷ h ∷ i ∷ [])
      (suc (suc (suc (suc (suc (suc (suc (suc (suc k))))))))) y x n dy at ne s s' =
    cc
wrong_sum [] k y x n dy at ne s s' = cc
wrong_sum _ _ y x n dy at ne s s' = absurd (omega (arith, n.nine))

-- Nor when two neighbours that differ are exchanged.
exchanged_sum :
    (xs : Text) (k x y : ℕ)
    → IsNineDigits xs
    → get_elem? xs k ≡ some x
    → get_elem? xs (suc k) ≡ some y
    → x ≢ y
    → weighted 9 (take 8 xs) % 11 ≡ last_digit xs % 11
    → weighted 9 (take 8 (swap_next xs k)) % 11 ≡ last_digit (swap_next xs k) % 11
    → ⊥
unfolding weighted last_digit
exchanged_sum (a ∷ b ∷ c ∷ d ∷ e ∷ f ∷ g ∷ h ∷ i ∷ []) zero x y n ax ay ne s s' =
    ne (omega (arith, some-injective _ _ ax, some-injective _ _ ay))
exchanged_sum (a ∷ b ∷ c ∷ d ∷ e ∷ f ∷ g ∷ h ∷ i ∷ []) (suc zero) x y n ax ay ne s s' =
    ne (omega (arith, some-injective _ _ ax, some-injective _ _ ay))
exchanged_sum (a ∷ b ∷ c ∷ d ∷ e ∷ f ∷ g ∷ h ∷ i ∷ []) (suc (suc zero)) x y n ax ay ne s s' =
    ne (omega (arith, some-injective _ _ ax, some-injective _ _ ay))
exchanged_sum (a ∷ b ∷ c ∷ d ∷ e ∷ f ∷ g ∷ h ∷ i ∷ []) (suc (suc (suc zero))) x y n ax ay ne s s' =
    ne (omega (arith, some-injective _ _ ax, some-injective _ _ ay))
exchanged_sum (a ∷ b ∷ c ∷ d ∷ e ∷ f ∷ g ∷ h ∷ i ∷ []) (suc (suc (suc (suc zero)))) x y n ax ay ne s
      s' =
    ne (omega (arith, some-injective _ _ ax, some-injective _ _ ay))
exchanged_sum (a ∷ b ∷ c ∷ d ∷ e ∷ f ∷ g ∷ h ∷ i ∷ []) (suc (suc (suc (suc (suc zero))))) x y n ax
      ay ne s s' =
    ne (omega (arith, some-injective _ _ ax, some-injective _ _ ay))
exchanged_sum (a ∷ b ∷ c ∷ d ∷ e ∷ f ∷ g ∷ h ∷ i ∷ []) (suc (suc (suc (suc (suc (suc zero)))))) x y
      n ax ay ne s s' =
    ne (omega (arith, some-injective _ _ ax, some-injective _ _ ay))
exchanged_sum (a ∷ b ∷ c ∷ d ∷ e ∷ f ∷ g ∷ h ∷ i ∷ [])
      (suc (suc (suc (suc (suc (suc (suc zero))))))) x y n ax ay ne s s' =
    ne (omega (arith, some-injective _ _ ax, some-injective _ _ ay))
exchanged_sum (a ∷ b ∷ c ∷ d ∷ e ∷ f ∷ g ∷ h ∷ i ∷ [])
      (suc (suc (suc (suc (suc (suc (suc (suc k)))))))) x y n ax ay ne s s' =
    cc
exchanged_sum [] k x y n ax ay ne s s' = cc
exchanged_sum _ _ x y n ax ay ne s s' = absurd (omega (arith, n.nine))

set_char-IsNineDigits :
    (xs : Text) (k y : ℕ) → IsNineDigits xs → IsDigit y → IsNineDigits (set_char xs k y)
set_char-IsNineDigits xs k y n dy = record {
  nine = length-set_char xs k y ∙ n.nine;
  digits = set_char-digits xs k y n.digits dy;
}

swap_next-IsNineDigits : (xs : Text) (k : ℕ) → IsNineDigits xs → IsNineDigits (swap_next xs k)
swap_next-IsNineDigits xs k n = record {
  nine = length-swap_next xs k ∙ n.nine;
  digits = swap_next-digits xs k n.digits;
}

-- A valid nine-digit BSN with exactly one digit changed is never valid.
pub is_valid_bsn-set_char :
    (xs : Text) (k y x : ℕ)
    → IsNineDigits xs
    → IsDigit y
    → get_elem? xs k ≡ some x
    → x ≢ y
    → is_valid_bsn xs ≡ true
    → is_valid_bsn (set_char xs k y) ≡ false
is_valid_bsn-set_char xs k y x n dy at ne v = elim (Bool-cases (is_valid_bsn (set_char xs k y))) [
  | inr rejected ↦ rejected
  | inl accepted ↦ absurd (
      wrong_sum xs k y x n dy at ne (passes xs n v)
        (passes (set_char xs k y) (set_char-IsNineDigits xs k y n dy) accepted))
]

-- A valid nine-digit BSN with two different neighbouring digits exchanged is never valid.
pub is_valid_bsn-swap_next :
    (xs : Text) (k x y : ℕ)
    → IsNineDigits xs
    → get_elem? xs k ≡ some x
    → get_elem? xs (suc k) ≡ some y
    → x ≢ y
    → is_valid_bsn xs ≡ true
    → is_valid_bsn (swap_next xs k) ≡ false
is_valid_bsn-swap_next xs k x y n ax ay ne v = elim (Bool-cases (is_valid_bsn (swap_next xs k))) [
  | inr rejected ↦ rejected
  | inl accepted ↦ absurd (
      exchanged_sum xs k x y n ax ay ne (passes xs n v)
        (passes (swap_next xs k) (swap_next-IsNineDigits xs k n) accepted))
]
