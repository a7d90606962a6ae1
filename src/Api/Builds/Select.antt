-- ===== src/Api/Builds/Select.antt =====
-- The loop that makes the steps: which recipes it takes, and the numbers of the steps.
use mathlib.Core.Path.{subst}
use osaip.Base.{
  ℕ, suc, ◌≡◌, ◌≢◌, ◌↔◌, refl, sym, Bool, true, ◌||◌, none, some, List, [], ◌∷◌, ◌==◌, any_of,
  get_list, Bool-cases, Option-cases, inl, inr, arith, ==_iff, ==_refl,
}
use osaip.Base.Worklist.{member}
use osaip.Base.Worklist.Members.{member-keep}
use osaip.Api.Recipes.{RecipeGraph}
use osaip.Api.Builds.{
  BuildStep, upstream_recipes, deps_of, upstream_included, step_output, select_steps,
}
use osaip.Api.Builds.Behind.{IsOrdered}

abbrev pub recipe_ids : List BuildStep → List ℕ
recipe_ids [] = []
recipe_ids (s ∷ ss) = s.recipe_id ∷ recipe_ids ss

-- The numbers from one on, as many as there are steps.
pub NumberedFrom : ℕ → List BuildStep → Type 0
NumberedFrom n [] = Unit
NumberedFrom n (s ∷ ss) = (s.ordinal ≡ n) × NumberedFrom (suc n) ss

module _ (force : Bool) (stale : ℕ → ℕ → Bool) (graph : RecipeGraph) (dep : ℕ → List ℕ) where
  -- The recipes to run: those with an output where the build is forced or the output is stale, and
  -- those with an output that depend on one of them.
  pub data Rebuilt : ℕ → Type 0 where
    itself :
        {r primary : ℕ} {others : List ℕ}
        → get_list r graph.outputs ≡ primary ∷ others
        → (force || stale r primary) ≡ true
        → Rebuilt r
    through :
        {r u primary : ℕ} {others : List ℕ}
        → get_list r graph.outputs ≡ primary ∷ others
        → member u (dep r) ≡ true
        → Rebuilt u
        → Rebuilt r

  -- The included ones are those of the list that are to run.
  pub Included : List ℕ → List ℕ → Type 0
  Included before included =
      (r : ℕ) → (member r included ≡ true) ↔ ((member r before ≡ true) × Rebuilt r)

any_of-member :
    (xs ys : List ℕ)
    → any_of (λ u. member u ys) xs ≡ true
    → (u : ℕ) × (member u xs ≡ true) × (member u ys ≡ true)
any_of-member [] ys h = absurd (cc h)
any_of-member (x ∷ xs) ys h = elim (Bool-cases (member x ys)) [
  | inl hit ↦ (x, rw (==_refl x) refl, hit)
  | inr miss ↦
      let rest = any_of-member xs ys (rw miss at h) in (rest.0, ground (arith, rest.1), rest.2)
]

member-any_of :
    (u : ℕ) (xs ys : List ℕ)
    → member u xs ≡ true
    → member u ys ≡ true
    → any_of (λ u. member u ys) xs ≡ true
member-any_of u [] ys h m = absurd (cc h)
member-any_of u (x ∷ xs) ys h m = elim (Bool-cases (x == u)) [
  | inl here ↦ rw ((==_iff x u).0 here, m) refl
  | inr there ↦ ground (arith, member-any_of u xs ys, h, m, there)
]

pub select_steps-NumberedFrom :
    (force : Bool) (stale : ℕ → ℕ → Bool) (graph : RecipeGraph) (rs included : List ℕ) (n : ℕ)
    → NumberedFrom n (select_steps force stale graph rs included n)
unfolding select_steps NumberedFrom
select_steps-NumberedFrom force stale graph [] included n = tt
select_steps-NumberedFrom force stale graph (r ∷ rs) included n =
    elim (Option-cases (step_output force stale graph included r (get_list r graph.outputs))) [
      | inl skipped ↦
          rw (skipped, NumberedFrom) (select_steps-NumberedFrom force stale graph rs included n)
      | inr (primary, taken) ↦
          rw (taken, NumberedFrom)
            (refl, select_steps-NumberedFrom force stale graph rs (r ∷ included) (suc n))
    ]

module _ (force : Bool) (stale : ℕ → ℕ → Bool) (graph : RecipeGraph)
    (closure before included : List ℕ)
    (within : (u : ℕ) → member u before ≡ true → member u closure ≡ true)
    (so_far : Included force stale graph (deps_of graph closure) before included) (r : ℕ)
    (behind : (u : ℕ) → member u (deps_of graph closure r) ≡ true → member u before ≡ true) where
  dependency :
      (u : ℕ)
      → member u (upstream_recipes graph r) ≡ true
      → member u included ≡ true
      → (member u (deps_of graph closure r) ≡ true)
        × Rebuilt force stale graph (deps_of graph closure) u
  unfolding deps_of Included
  dependency u up in_it =
      let was = (so_far u).0 in_it in
      (
        ground (
          arith,
          up,
          within u (was.0),
          member-keep u (λ x. member x closure) (upstream_recipes graph r),
        ),
        was.1,
      )

  reason :
      {primary : ℕ} {others : List ℕ}
      → get_list r graph.outputs ≡ primary ∷ others
      → (force || stale r primary || upstream_included graph included r) ≡ true
      → Rebuilt force stale graph (deps_of graph closure) r
  unfolding upstream_included
  reason {primary} has why = elim (Bool-cases (force || stale r primary)) [
    | inl hit ↦ itself has hit
    | inr miss ↦
        let above = any_of-member (upstream_recipes graph r) included (ground (arith, why, miss)) in
        let dep = dependency (above.0) (above.1) (above.2) in through has (dep.0) (dep.1)
  ]

  -- What the loop decides for a recipe is whether it is to run.
  step_output-Rebuilt :
      (outputs : List ℕ) {primary : ℕ}
      → get_list r graph.outputs ≡ outputs
      → step_output force stale graph included r outputs ≡ some primary
      → Rebuilt force stale graph (deps_of graph closure) r
  unfolding step_output
  step_output-Rebuilt [] has taken = absurd (cc taken)
  step_output-Rebuilt (p ∷ others) has taken =
      elim (Bool-cases (force || stale r p || upstream_included graph included r)) [
        | inl why ↦ reason has why
        | inr not_so ↦ absurd (cc (rw not_so at taken))
      ]

  chosen :
      {primary : ℕ} {others : List ℕ}
      → get_list r graph.outputs ≡ primary ∷ others
      → (force || stale r primary || upstream_included graph included r) ≡ true
      → step_output force stale graph included r (get_list r graph.outputs) ≢ none
  unfolding step_output
  chosen has why passed = cc (rw (has, why) at passed)

  no_output-Rebuilt :
      step_output force stale graph included r (get_list r graph.outputs) ≡ none
      → ¬ Rebuilt force stale graph (deps_of graph closure) r
  unfolding deps_of upstream_included Included
  no_output-Rebuilt passed (itself has hit) = chosen has (ground (arith, hit)) passed
  no_output-Rebuilt passed (through {u} has dep w) =
      chosen has
        (ground (
          arith,
          member-any_of u (upstream_recipes graph r) included
              (ground
                (arith, dep, member-keep u (λ x. member x closure) (upstream_recipes graph r)))
              ((so_far u).1 (behind u dep, w)),
        ))
        passed

  passed-Included :
      step_output force stale graph included r (get_list r graph.outputs) ≡ none
      → Included force stale graph (deps_of graph closure) (r ∷ before) included
  unfolding Included
  passed-Included passed z = (
    λ m. let was = (so_far z).0 m in (ground (arith, was.0), was.1),
    λ m. elim (Bool-cases (r == z)) [
      | inl same ↦ absurd (
          no_output-Rebuilt passed (
            subst (Rebuilt force stale graph (deps_of graph closure)) (sym ((==_iff r z).0 same))
              (m.1)))
      | inr other ↦ (so_far z).1 (ground (arith, m.0, other), m.1)
    ],
  )

  taken-Included :
      {primary : ℕ}
      → step_output force stale graph included r (get_list r graph.outputs) ≡ some primary
      → Included force stale graph (deps_of graph closure) (r ∷ before) (r ∷ included)
  unfolding Included
  taken-Included taken z = elim (Bool-cases (r == z)) [
    | inl same ↦ (
      λ m. (
        ground (arith, same),
        subst (Rebuilt force stale graph (deps_of graph closure)) ((==_iff r z).0 same)
            (step_output-Rebuilt (get_list r graph.outputs) refl taken),
      ),
      λ m. ground (arith, same),
    )
    | inr other ↦ (
      λ m. let was = (so_far z).0 (ground (arith, m, other)) in (ground (arith, was.0), was.1),
      λ m. let was = (so_far z).1 (ground (arith, m.0, other), m.1) in ground (arith, was),
    )
  ]

shift-member :
    (x r : ℕ) (before rs : List ℕ)
    → (member x (r ∷ before) || member x rs) ≡ (member x before || member x (r ∷ rs))
shift-member x r before rs = ground arith

-- Given the recipes before, the loop makes a step of each recipe that is to run, and of no other.
pub select_steps-Rebuilt :
    (force : Bool) (stale : ℕ → ℕ → Bool) (graph : RecipeGraph)
    (closure rs before included : List ℕ) (n : ℕ)
    → ((u : ℕ) → member u before ≡ true → member u closure ≡ true)
    → ((u : ℕ) → member u rs ≡ true → member u closure ≡ true)
    → IsOrdered (deps_of graph closure) before rs
    → Included force stale graph (deps_of graph closure) before included
    → (r : ℕ)
    → ((member r included || member r (recipe_ids (select_steps force stale graph rs included n)))
        ≡ true)
      ↔ (((member r before || member r rs) ≡ true)
          × Rebuilt force stale graph (deps_of graph closure) r)
unfolding select_steps IsOrdered Included
select_steps-Rebuilt force stale graph closure [] before included n w v o inc r = (
  λ m. let was = (inc r).0 (ground (arith, m)) in (ground (arith, was.0), was.1),
  λ m. ground (arith, (inc r).1 (ground (arith, m.0), m.1)),
)
select_steps-Rebuilt force stale graph closure (r ∷ rs) before included n w v o inc x =
    elim (Option-cases (step_output force stale graph included r (get_list r graph.outputs))) [
      | inl skipped ↦
          rw (skipped, recipe_ids)
            (shifted (
              select_steps-Rebuilt force stale graph closure rs (r ∷ before) included n within later
                (o.1)
                (passed-Included force stale graph closure before included w inc r (o.0) skipped)
                x))
      | inr (primary, taken) ↦
          rw (taken, recipe_ids)
            (subst
              (λ b. (b ≡ true) ↔ (
                ((member x before || member x (r ∷ rs)) ≡ true)
                × Rebuilt force stale graph (deps_of graph closure) x))
              (shift-member x r included _)
              (shifted (
                select_steps-Rebuilt force stale graph closure rs (r ∷ before) (r ∷ included)
                  (suc n) within later (o.1)
                  (taken-Included force stale graph closure before included w inc r (o.0) taken)
                  x)))
    ]
  where
    within : (u : ℕ) → member u (r ∷ before) ≡ true → member u closure ≡ true
    within u m = ground (arith, m, w u, v u)

    later : (u : ℕ) → member u rs ≡ true → member u closure ≡ true
    later u m = ground (arith, m, v u)

    shifted :
        {A : Type 0}
        → A ↔ (
            ((member x (r ∷ before) || member x rs) ≡ true)
            × Rebuilt force stale graph (deps_of graph closure) x)
        → A ↔ (
            ((member x before || member x (r ∷ rs)) ≡ true)
            × Rebuilt force stale graph (deps_of graph closure) x)
    shifted {A} h =
        subst (λ b. A ↔ ((b ≡ true) × Rebuilt force stale graph (deps_of graph closure) x))
          (shift-member x r before rs) h

pub nothing-Included :
    (force : Bool) (stale : ℕ → ℕ → Bool) (graph : RecipeGraph) (dep : ℕ → List ℕ)
    → Included force stale graph dep [] []
unfolding Included
nothing-Included force stale graph dep x = (λ m. absurd (cc m), λ m. absurd (cc (m.0)))
