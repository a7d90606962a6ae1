-- ===== src/Base/Slices.antt =====
-- Laws of `take` and `drop`.
use osaip.Base.Lists.{length, take, drop, get_elem?}
use Prim.Native.Nat.{ℕ, zero, suc, ◌+◌, ◌-◌, ◌≤◌, ◌<◌}
use mathlib.Core.Path.{◌≡◌, refl, ap, ◌∙◌}
use mathlib.Core.List.{List, [], ◌∷◌, ◌++◌}
use native.Mathlib.Omega.{arith}

module _ {ℓ} {A : Type ℓ} where
  take-nil : (n : ℕ) → take {A = A} n [] ≡ []
  take-nil zero = refl
  take-nil (suc n) = refl

  drop-nil : (n : ℕ) → drop {A = A} n [] ≡ []
  drop-nil zero = refl
  drop-nil (suc n) = refl

  pub take-append_le : (n : ℕ) (xs ys : List A) → n ≤ length xs → take n (xs ++ ys) ≡ take n xs
  take-append_le zero xs ys h = refl
  take-append_le (suc n) [] ys h = elim h [ ]
  take-append_le (suc n) (x ∷ xs) ys h = ap (λ t. x ∷ t) (take-append_le n xs ys (omega arith))

  pub drop-append_exact_take :
      (n : ℕ) (xs ys : List A) → n ≤ length xs → drop n (take n xs ++ ys) ≡ ys
  drop-append_exact_take zero xs ys h = refl
  drop-append_exact_take (suc n) [] ys h = elim h [ ]
  drop-append_exact_take (suc n) (x ∷ xs) ys h = drop-append_exact_take n xs ys (omega arith)

  pub take-take : (n m : ℕ) (xs : List A) → n ≤ m → take n (take m xs) ≡ take n xs
  take-take zero m xs h = refl
  take-take (suc n) zero xs h = elim h [ ]
  take-take (suc n) (suc m) [] h = refl
  take-take (suc n) (suc m) (x ∷ xs) h = ap (λ t. x ∷ t) (take-take n m xs (omega arith))

  pub length-take_le : (n : ℕ) (xs : List A) → n ≤ length xs → length (take n xs) ≡ n
  length-take_le zero xs h = refl
  length-take_le (suc n) [] h = elim h [ ]
  length-take_le (suc n) (x ∷ xs) h = omega (arith, length-take_le n xs)

  pub drop-drop : (n m : ℕ) (xs : List A) → n ≤ m → drop (m - n) (drop n xs) ≡ drop m xs
  drop-drop zero m xs h = ap (λ k. drop k xs) (omega arith)
  drop-drop (suc n) zero xs h = elim h [ ]
  drop-drop (suc n) (suc m) [] h = drop-nil (suc m - suc n)
  drop-drop (suc n) (suc m) (x ∷ xs) h =
      ap (λ k. drop k (drop n xs)) (omega arith) ∙ drop-drop n m xs (omega arith)

  pub take-append-take-drop :
      (n m : ℕ) (xs : List A) → n ≤ m → take n xs ++ take (m - n) (drop n xs) ≡ take m xs
  take-append-take-drop zero m xs h = ap (λ k. take k xs) (omega arith)
  take-append-take-drop (suc n) zero xs h = elim h [ ]
  take-append-take-drop (suc n) (suc m) [] h = take-nil (suc m - suc n)
  take-append-take-drop (suc n) (suc m) (x ∷ xs) h =
      ap (λ k. x ∷ (take n xs ++ take k (drop n xs))) (omega arith)
      ∙ ap (λ t. x ∷ t) (take-append-take-drop n m xs (omega arith))

  pub take-append-drop : (n : ℕ) (xs : List A) → take n xs ++ drop n xs ≡ xs
  take-append-drop zero xs = refl
  take-append-drop (suc n) [] = refl
  take-append-drop (suc n) (x ∷ xs) = ap (λ t. x ∷ t) (take-append-drop n xs)

  pub get_elem?-drop : (n i : ℕ) (xs : List A) → get_elem? (drop n xs) i ≡ get_elem? xs (n + i)
  get_elem?-drop zero i xs = ap (get_elem? xs) (omega arith)
  get_elem?-drop (suc n) i [] = refl
  get_elem?-drop (suc n) i (x ∷ xs) =
      let e : suc (n + i) ≡ suc n + i = omega arith in
      get_elem?-drop n i xs ∙ ap (get_elem? (x ∷ xs)) e

  pub length-drop : (n : ℕ) (xs : List A) → length (drop n xs) ≡ length xs - n
  length-drop zero xs = omega arith
  length-drop (suc n) [] = omega arith
  length-drop (suc n) (x ∷ xs) = omega (arith, length-drop n xs)

  -- Two lists that agree at every index below `n` have one prefix of that length.
  pub take_ext :
      (n : ℕ) (xs ys : List A)
      → ((i : ℕ) → i < n → get_elem? xs i ≡ get_elem? ys i)
      → take n xs ≡ take n ys
  take_ext zero xs ys h = refl
  take_ext (suc n) [] [] h = refl
  take_ext (suc n) [] (y ∷ ys) h = cc (h 0 (omega arith))
  take_ext (suc n) (x ∷ xs) [] h = cc (h 0 (omega arith))
  take_ext (suc n) (x ∷ xs) (y ∷ ys) h =
      cc (h 0 (omega arith), take_ext n xs ys (λ i lt. h (suc i) (omega arith)))

  -- Two lists that agree at every index are equal.
  pub list_ext : (xs ys : List A) → ((i : ℕ) → get_elem? xs i ≡ get_elem? ys i) → xs ≡ ys
  list_ext [] [] h = refl
  list_ext [] (y ∷ ys) h = cc (h 0)
  list_ext (x ∷ xs) [] h = cc (h 0)
  list_ext (x ∷ xs) (y ∷ ys) h = cc (h 0, list_ext xs ys (λ i. h (suc i)))
