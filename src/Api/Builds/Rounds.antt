-- ===== src/Api/Builds/Rounds.antt =====
-- The rounds of the topological order: what they take off, and that they end.
use mathlib.Core.Path.{subst}
use osaip.Base.{
  ℕ, zero, suc, ◌+◌, ◌≤◌, ◌≡◌, ◌≢◌, refl, Bool, true, false, ◌||◌, List, [], ◌∷◌, ◌++◌, length, leb,
  ◌==◌, if◌then◌else◌, All, Bool-cases, inl, inr, arith,
}
use osaip.Base.Worklist.{member}
use osaip.Api.Builds.{
  Result, ok, err, no_fuel, cyclic_build_graph, is_empty, ready_of, insert_id, sort_ids,
  remove_ready, topo_loop,
}

-- How often a list has a number.
unfoldable pub count : ℕ → List ℕ → ℕ
count x [] = 0
count x (y ∷ ys) = (if y == x then 1 else 0) + count x ys

pub count-append : (x : ℕ) (ys zs : List ℕ) → count x (ys ++ zs) ≡ count x ys + count x zs
unfolding count
count-append x [] zs = omega arith
count-append x (y ∷ ys) zs = omega (arith, count-append x ys zs)

pub count-sort_ids : (x : ℕ) (ys : List ℕ) → count x (sort_ids ys) ≡ count x ys
unfolding count sort_ids
count-sort_ids x [] = refl
count-sort_ids x (y ∷ ys) = omega (arith, count-insert_id x y (sort_ids ys), count-sort_ids x ys)
  where
    count-insert_id :
        (x y : ℕ) (ys : List ℕ) → count x (insert_id y ys) ≡ (if y == x then 1 else 0) + count x ys
    count-insert_id x y [] = omega arith
    count-insert_id x y (z ∷ ys) = ground (arith, count-insert_id x y ys)

pub length-sort_ids : (ys : List ℕ) → length (sort_ids ys) ≡ length ys
unfolding sort_ids
length-sort_ids [] = refl
length-sort_ids (y ∷ ys) = omega (arith, length-insert_id y (sort_ids ys), length-sort_ids ys)
  where
    length-insert_id : (y : ℕ) (ys : List ℕ) → length (insert_id y ys) ≡ suc (length ys)
    length-insert_id y [] = refl
    length-insert_id y (z ∷ ys) = ground (arith, length-insert_id y ys)

pub member-count : (x : ℕ) (ys : List ℕ) → member x ys ≡ leb 1 (count x ys)
unfolding count
member-count x [] = refl
member-count x (y ∷ ys) = ground (arith, member-count x ys)

pub member-sort_ids : (x : ℕ) (ys : List ℕ) → member x (sort_ids ys) ≡ member x ys
unfolding sort_ids
member-sort_ids x [] = refl
member-sort_ids x (y ∷ ys) =
    ground (arith, member-insert_id x y (sort_ids ys), member-sort_ids x ys)
  where
    member-insert_id : (x y : ℕ) (ys : List ℕ) → member x (insert_id y ys) ≡ (y == x || member x ys)
    member-insert_id x y [] = ground arith
    member-insert_id x y (z ∷ ys) = ground (arith, member-insert_id x y ys)

pub All-sort_ids : (P : ℕ → Type 0) (ys : List ℕ) → All P ys → All P (sort_ids ys)
unfolding sort_ids
All-sort_ids P [] h = tt
All-sort_ids P (y ∷ ys) h = All-insert_id y (sort_ids ys) h.0 (All-sort_ids P ys h.1)
  where
    All-insert_id : (y : ℕ) (ys : List ℕ) → P y → All P ys → All P (insert_id y ys)
    All-insert_id y [] p h = (p, tt)
    All-insert_id y (z ∷ ys) p h = elim (Bool-cases (leb y z)) [
      | inl le ↦ rw (le, insert_id) (p, h)
      | inr gt ↦ rw (gt, insert_id) (h.0, All-insert_id y ys p h.1)
    ]

unfoldable pub names : List (ℕ × List ℕ) → List ℕ
names [] = []
names ((r, ds) ∷ ws) = r ∷ names ws

-- A round takes the ready recipes off, and nothing else.
length-remove_ready :
    (ready : List ℕ) (ws : List (ℕ × List ℕ))
    → length (remove_ready ready ws) + length (ready_of ws) ≡ length ws
unfolding remove_ready ready_of
length-remove_ready ready [] = omega arith
length-remove_ready ready ((r, ds) ∷ ws) = ground (arith, length-remove_ready ready ws)

pub count-remove_ready :
    (x : ℕ) (ready : List ℕ) (ws : List (ℕ × List ℕ))
    → count x (names (remove_ready ready ws)) + count x (ready_of ws) ≡ count x (names ws)
unfolding remove_ready ready_of count names
count-remove_ready x ready [] = omega arith
count-remove_ready x ready ((r, ds) ∷ ws) = ground (arith, count-remove_ready x ready ws)

pub is_empty-length : (xs : List ℕ) → is_empty xs ≡ false → 1 ≤ length xs
unfolding is_empty
is_empty-length [] h = absurd (cc h)
is_empty-length (x ∷ xs) h = omega arith

pub is_empty→length : (xs : List ℕ) → is_empty xs ≡ true → length xs ≡ 0
unfolding is_empty
is_empty→length [] h = refl
is_empty→length (x ∷ xs) h = absurd (cc h)

-- What a round takes off, the sorted list counted.
pub shorter :
    (ws : List (ℕ × List ℕ))
    → (let ready = sort_ids (ready_of ws) in
        is_empty ready ≡ false → suc (length (remove_ready ready ws)) ≤ length ws)
shorter ws h = omega (
  arith,
  is_empty-length (sort_ids (ready_of ws)) h,
  length-sort_ids (ready_of ws),
  length-remove_ready (sort_ids (ready_of ws)) ws,
)

pub topo_loop_ends :
    (fuel : ℕ) (ws : List (ℕ × List ℕ)) (ordered : List ℕ)
    → length ws ≤ fuel
    → topo_loop fuel ws ordered ≢ err no_fuel
unfolding topo_loop
topo_loop_ends fuel [] ordered h = cc
topo_loop_ends zero (w ∷ ws) ordered h = absurd (omega (arith, h))
topo_loop_ends (suc fuel) (w ∷ ws) ordered h =
    elim (Bool-cases (is_empty (sort_ids (ready_of (w ∷ ws))))) [
      | inl none_ready ↦ rw none_ready (cc)
      | inr some_ready ↦
          rw some_ready (topo_loop_ends fuel _ _ (omega (arith, h, shorter (w ∷ ws) some_ready)))
    ]

not_cyclic :
    (b : Bool) {rest : Result (List ℕ)} {os : List ℕ}
    → (if b then err cyclic_build_graph else rest) ≡ ok os
    → rest ≡ ok os
not_cyclic true e = absurd (cc e)
not_cyclic false e = e

-- What a round preserves holds of the order that the loop returns, where nothing waits.
pub after_loop :
    (P : List (ℕ × List ℕ) → List ℕ → Type 0)
    → ((ws : List (ℕ × List ℕ)) (ordered : List ℕ)
        → P ws ordered
        → P (remove_ready (sort_ids (ready_of ws)) ws) (ordered ++ sort_ids (ready_of ws)))
    → (fuel : ℕ) (ws : List (ℕ × List ℕ)) (ordered : List ℕ) {os : List ℕ} → P ws ordered
    → topo_loop fuel ws ordered ≡ ok os
    → P [] os
unfolding topo_loop
after_loop P round fuel [] ordered p e = subst (P []) (cc e) p
after_loop P round zero (w ∷ ws) ordered p e = absurd (cc e)
after_loop P round (suc fuel) (w ∷ ws) ordered p e =
    after_loop P round fuel _ _ (round (w ∷ ws) ordered p)
      (not_cyclic (is_empty (sort_ids (ready_of (w ∷ ws)))) e)

-- Every recipe of the result was in the loop's table, as often.
pub count-topo_loop :
    (x fuel : ℕ) (ws : List (ℕ × List ℕ)) (ordered : List ℕ) {os : List ℕ}
    → topo_loop fuel ws ordered ≡ ok os
    → count x os ≡ count x ordered + count x (names ws)
unfolding names count
count-topo_loop x fuel ws ordered {os} e = omega (
  arith,
  after_loop (λ vs done. count x done + count x (names vs) ≡ count x ordered + count x (names ws))
      (λ vs done p. omega (
        arith,
        p,
        count-append x done (sort_ids (ready_of vs)),
        count-sort_ids x (ready_of vs),
        count-remove_ready x (sort_ids (ready_of vs)) vs,
      ))
      fuel ws ordered refl e,
)
