-- ===== src/Api/Builds/Behind.antt =====
-- The topological order puts a recipe after what it waits for.
use osaip.Base.{ℕ, ◌≡◌, true, not, ◌||◌, List, [], ◌∷◌, ◌++◌, All, All-map_rule, arith}
use osaip.Base.Worklist.{member}
use osaip.Base.Worklist.Members.{member-append, member-keep}
use osaip.Api.Builds.{ok, is_empty, ready_of, sort_ids, remove_ready, topo_loop}
use osaip.Api.Builds.Rounds.{All-sort_ids, after_loop}

-- Each recipe has what it depends on before it, given the recipes before the list.
unfoldable pub IsOrdered : (ℕ → List ℕ) → List ℕ → List ℕ → Type 0
IsOrdered dep before [] = Unit
IsOrdered dep before (r ∷ rs) =
    ((u : ℕ) → member u (dep r) ≡ true → member u before ≡ true) × IsOrdered dep (r ∷ before) rs

module _ (dep : ℕ → List ℕ) where
  -- A recipe of a list waits for none but those of the two lists given.
  Waits : List ℕ → List ℕ → ℕ → Type 0
  Waits before xs r = (u : ℕ) → member u (dep r) ≡ true → (member u before || member u xs) ≡ true

  ready-IsOrdered : (before rs : List ℕ) → All (Waits before []) rs → IsOrdered dep before rs
  unfolding IsOrdered Waits
  ready-IsOrdered before [] h = tt
  ready-IsOrdered before (r ∷ rs) h = (
    λ u d. ground (arith, h.0 u d),
    ready-IsOrdered (r ∷ before) rs (All-map_rule (λ s w u d. ground (arith, w u d)) rs (h.1)),
  )

  append-IsOrdered :
      (before xs rs : List ℕ)
      → IsOrdered dep before xs
      → All (Waits before xs) rs
      → IsOrdered dep before (xs ++ rs)
  unfolding IsOrdered Waits
  append-IsOrdered before [] rs o h = ready-IsOrdered before rs h
  append-IsOrdered before (x ∷ xs) rs o h = (
    o.0,
    append-IsOrdered (x ∷ before) xs rs (o.1)
        (All-map_rule (λ s w u d. ground (arith, w u d)) rs h),
  )

  -- A recipe that waits has what it depends on among what it still waits for and what is ordered.
  unfoldable pub Pending : List ℕ → List (ℕ × List ℕ) → Type 0
  Pending ordered ws =
      All (λ w. (u : ℕ) → member u (dep w.0) ≡ true → (member u w.1 || member u ordered) ≡ true) ws

  ready-Waits :
      (ordered : List ℕ) (ws : List (ℕ × List ℕ))
      → Pending ordered ws
      → All (Waits [] ordered) (ready_of ws)
  unfolding Pending Waits ready_of is_empty
  ready-Waits ordered [] p = tt
  ready-Waits ordered ((r, []) ∷ ws) p = (p.0, ready-Waits ordered ws (p.1))
  ready-Waits ordered ((r, d ∷ ds) ∷ ws) p = ready-Waits ordered ws (p.1)

  remove-Pending :
      (ordered ready : List ℕ) (ws : List (ℕ × List ℕ))
      → Pending ordered ws
      → Pending (ordered ++ ready) (remove_ready ready ws)
  unfolding Pending remove_ready is_empty
  remove-Pending ordered ready [] p = tt
  remove-Pending ordered ready ((r, []) ∷ ws) p = remove-Pending ordered ready ws (p.1)
  remove-Pending ordered ready ((r, d ∷ ds) ∷ ws) p = (
    λ u m. ground (
      arith,
      p.0 u m,
      member-keep u (λ x. not (member x ready)) (d ∷ ds),
      member-append u ordered ready,
    ),
    remove-Pending ordered ready ws (p.1),
  )

  nothing-IsOrdered : IsOrdered dep [] []
  unfolding IsOrdered
  nothing-IsOrdered = tt

  pub topo_loop-IsOrdered :
      (fuel : ℕ) (ws : List (ℕ × List ℕ)) {os : List ℕ}
      → Pending [] ws
      → topo_loop fuel ws [] ≡ ok os
      → IsOrdered dep [] os
  topo_loop-IsOrdered fuel ws p e =
      (after_loop (λ vs done. Pending done vs × IsOrdered dep [] done)
        (λ vs done q. (
          remove-Pending done (sort_ids (ready_of vs)) vs (q.0),
          append-IsOrdered [] done (sort_ids (ready_of vs)) (q.1)
              (All-sort_ids (Waits [] done) (ready_of vs) (ready-Waits done vs (q.0))),
        ))
        fuel ws [] (p, nothing-IsOrdered) e).1
