-- ===== src/Api/Builds/Order.antt =====
-- The order of a build: it is found where there is no cycle, and it keeps each recipe once.
use mathlib.Core.Path.{subst}
use osaip.Base.{
  ℕ, zero, suc, ◌≤◌, ◌<◌, ◌≡◌, ◌≢◌, refl, sym, ap, ◌∙◌, true, false, not, List, [], ◌∷◌, length,
  ◌==◌, All, Bool-cases, inl, inr, arith, ==_iff, ==_refl,
}
use osaip.Base.Worklist.{member}
use osaip.Base.Worklist.Members.{member-keep}
use osaip.Api.Recipes.{RecipeGraph}
use osaip.Api.Builds.{
  ok, upstream_recipes, deps_of, waiting_from, is_empty, ready_of, sort_ids, remove_ready,
  topo_loop, topo_order,
}
use osaip.Api.Builds.Rounds.{
  count, count-topo_loop, names, shorter, member-sort_ids, length-sort_ids, is_empty→length,
}
use osaip.Api.Builds.Behind.{IsOrdered, Pending, topo_loop-IsOrdered}

-- A rank that grows along the dependencies: the table has no cycle.
module _ (rank : ℕ → ℕ) where
  -- A recipe waits for recipes of lower rank that are in the table.
  Ranked : List ℕ → List (ℕ × List ℕ) → Type 0
  Ranked table ws =
      All (λ w. (u : ℕ) → member u w.1 ≡ true → (member u table ≡ true) × (rank u < rank w.0)) ws

  all-Wait :
      (table : List ℕ) (ws : List (ℕ × List ℕ))
      → Ranked table ws
      → length (ready_of ws) ≡ 0
      → (r : ℕ) → member r (names ws) ≡ true
      → (u : ℕ) × (member u table ≡ true) × (rank u < rank r)
  unfolding Ranked ready_of is_empty names
  all-Wait table [] h z r m = absurd (cc m)
  all-Wait table ((s, []) ∷ ws) h z r m = absurd (omega (arith, z))
  all-Wait table ((s, d ∷ ds) ∷ ws) h z r m = elim (Bool-cases (s == r)) [
    | inl here ↦
        let lower = h.0 d (ground arith) in
        (d, lower.0, subst (λ x. rank d < rank x) ((==_iff s r).0 here) (lower.1))
    | inr there ↦ all-Wait table ws (h.1) z r (ground (arith, m, there))
  ]

  -- So not all of them wait.
  not_all-Wait :
      (ws : List (ℕ × List ℕ))
      → Ranked (names ws) ws
      → length (ready_of ws) ≡ 0
      → (bound r : ℕ) → member r (names ws) ≡ true
      → rank r < bound
      → ⊥
  not_all-Wait ws h z zero r m lt = omega (arith, lt)
  not_all-Wait ws h z (suc bound) r m lt =
      let lower = all-Wait (names ws) ws h z r m in
      not_all-Wait ws h z bound (lower.0) (lower.1) (omega (arith, lt, lower.2))

  names-remove_ready :
      (u : ℕ) (ready : List ℕ) (ws : List (ℕ × List ℕ))
      → member u (names ws) ≡ true
      → member u (ready_of ws) ≡ false
      → member u (names (remove_ready ready ws)) ≡ true
  unfolding remove_ready ready_of is_empty names
  names-remove_ready u ready [] m out = m
  names-remove_ready u ready ((r, []) ∷ ws) m out =
      ground (arith, m, out, names-remove_ready u ready ws)
  names-remove_ready u ready ((r, d ∷ ds) ∷ ws) m out =
      ground (arith, m, out, names-remove_ready u ready ws)

  remove-Ranked :
      (ready table rest : List ℕ) (ws : List (ℕ × List ℕ))
      → ((u : ℕ) → member u table ≡ true → member u ready ≡ false → member u rest ≡ true)
      → Ranked table ws
      → Ranked rest (remove_ready ready ws)
  unfolding Ranked remove_ready is_empty
  remove-Ranked ready table rest [] keeps h = tt
  remove-Ranked ready table rest ((r, []) ∷ ws) keeps h =
      remove-Ranked ready table rest ws keeps (h.1)
  remove-Ranked ready table rest ((r, d ∷ ds) ∷ ws) keeps h = (
    λ u m.
        let split = member-keep u (λ x. not (member x ready)) (d ∷ ds) in
        let was = h.0 u (ground (arith, m, split)) in
        (keeps u (was.0) (ground (arith, m, split)), was.1),
    remove-Ranked ready table rest ws keeps (h.1),
  )

  round-Ranked :
      (ws : List (ℕ × List ℕ))
      → Ranked (names ws) ws
      → (let rest = remove_ready (sort_ids (ready_of ws)) ws in Ranked (names rest) rest)
  round-Ranked ws h =
      remove-Ranked (sort_ids (ready_of ws)) (names ws) _ ws
        (λ u m out.
          names-remove_ready u (sort_ids (ready_of ws)) ws m
            (sym (member-sort_ids u (ready_of ws)) ∙ out))
        h

  some_ready-Ranked :
      (w : ℕ × List ℕ) (ws : List (ℕ × List ℕ))
      → Ranked (names (w ∷ ws)) (w ∷ ws)
      → is_empty (sort_ids (ready_of (w ∷ ws))) ≢ true
  unfolding names
  some_ready-Ranked (r, ds) ws h e =
      not_all-Wait ((r, ds) ∷ ws) h
        (sym (length-sort_ids (ready_of ((r, ds) ∷ ws))) ∙ is_empty→length _ e) (suc (rank r)) r
        (rw (==_refl r) refl) (omega arith)

  topo_loop_ok :
      (fuel : ℕ) (ws : List (ℕ × List ℕ)) (ordered : List ℕ)
      → length ws ≤ fuel
      → Ranked (names ws) ws
      → (os : List ℕ) × (topo_loop fuel ws ordered ≡ ok os)
  unfolding topo_loop
  topo_loop_ok fuel [] ordered le h = (ordered, refl)
  topo_loop_ok zero (w ∷ ws) ordered le h = absurd (omega (arith, le))
  topo_loop_ok (suc fuel) (w ∷ ws) ordered le h =
      elim (Bool-cases (is_empty (sort_ids (ready_of (w ∷ ws))))) [
        | inl none_ready ↦ absurd (some_ready-Ranked w ws h none_ready)
        | inr some_ready ↦ rw some_ready (
            topo_loop_ok fuel _ _ (omega (arith, le, shorter (w ∷ ws) some_ready))
              (round-Ranked (w ∷ ws) h))
      ]

  waiting-Ranked :
      (graph : RecipeGraph) (closure rs : List ℕ)
      → ((r u : ℕ)
          → member r rs ≡ true
          → member u (deps_of graph closure r) ≡ true
          → rank u < rank r)
      → Ranked closure (waiting_from graph closure rs)
  unfolding Ranked waiting_from deps_of
  waiting-Ranked graph closure [] h = tt
  waiting-Ranked graph closure (r ∷ rs) h = (
    λ u m. (
      ground (arith, m, member-keep u (λ x. member x closure) (upstream_recipes graph r)),
      h r u (rw (==_refl r) refl) m,
    ),
    waiting-Ranked graph closure rs (λ s u at. h s u (ground (arith, at))),
  )

names-waiting_from :
    (graph : RecipeGraph) (closure rs : List ℕ) → names (waiting_from graph closure rs) ≡ rs
unfolding names waiting_from
names-waiting_from graph closure [] = refl
names-waiting_from graph closure (r ∷ rs) = ap (λ xs. r ∷ xs) (names-waiting_from graph closure rs)

length-waiting_from :
    (graph : RecipeGraph) (closure rs : List ℕ) → length (waiting_from graph closure rs) ≡ length rs
unfolding waiting_from
length-waiting_from graph closure [] = refl
length-waiting_from graph closure (r ∷ rs) = ap suc (length-waiting_from graph closure rs)

waiting-Pending :
    (graph : RecipeGraph) (closure rs : List ℕ)
    → Pending (deps_of graph closure) [] (waiting_from graph closure rs)
unfolding waiting_from Pending
waiting-Pending graph closure [] = tt
waiting-Pending graph closure (r ∷ rs) = (λ u m. rw m refl, waiting-Pending graph closure rs)

-- Where some rank grows along the dependencies, the order is found: it has each recipe of the
-- closure as often as the closure has it, and each one after those it depends on.
pub topo_order_lem :
    (closure : List ℕ) (graph : RecipeGraph) (rank : ℕ → ℕ)
    → ((r u : ℕ)
        → member r closure ≡ true
        → member u (deps_of graph closure r) ≡ true
        → rank u < rank r)
    → (os : List ℕ) × (topo_order closure graph ≡ ok os)
      × ((x : ℕ) → count x os ≡ count x closure)
      × IsOrdered (deps_of graph closure) [] os
unfolding topo_order count
topo_order_lem closure graph rank h =
    let ws = waiting_from graph closure closure in
    let ran =
      topo_loop_ok rank (length closure) ws []
        (rw (length-waiting_from graph closure closure) (omega arith))
        (rw (names-waiting_from graph closure closure)
          (waiting-Ranked rank graph closure closure h)) in
    (
      ran.0,
      ran.1,
      λ x.
          let total = count-topo_loop x (length closure) ws [] (ran.1) in
          let listed = rw (names-waiting_from graph closure closure) at total in
          omega (arith, listed),
      topo_loop-IsOrdered (deps_of graph closure) (length closure) ws
          (waiting-Pending graph closure closure) (ran.1),
    )
