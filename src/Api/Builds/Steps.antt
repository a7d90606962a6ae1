-- ===== src/Api/Builds/Steps.antt =====
-- Which recipes become steps of a build, and how the steps are numbered.
use osaip.Base.{ℕ, leb, ◌<◌, ◌≡◌, ◌↔◌, refl, sym, ap, ◌∙◌, Bool, true, List, [], arith}
use osaip.Base.Worklist.{member}
use osaip.Base.Worklist.Members.{member-keep}
use osaip.Base.Worklist.Reached.{Reached, onward}
use osaip.Api.Recipes.{RecipeGraph}
use osaip.Api.Builds.{BuildStep, ok, upstream_recipes, deps_of, select_steps, build_steps}
use osaip.Api.Builds.Closure.{upstream_closure_lem}
use osaip.Api.Builds.Behind.{IsOrdered}
use osaip.Api.Builds.Order.{topo_order_lem}
use osaip.Api.Builds.Rounds.{count, member-count}
use osaip.Api.Builds.Select.{
  Rebuilt, itself, through, nothing-Included, recipe_ids, NumberedFrom, select_steps-NumberedFrom,
  select_steps-Rebuilt,
}

-- What the steps of a build are: those of the recipes that the targets are built from, directly or
-- through others, that have an output and are to run, numbered from zero. To run are the recipes
-- whose output is stale, or all where the build is forced, and those that depend on one to run.
pub record AreSteps (force : Bool) (stale : ℕ → ℕ → Bool) (graph : RecipeGraph)
    (producer_ids : List ℕ) (steps : List BuildStep) : Type 0 where
  pub steps_of :
      (r : ℕ)
      → (member r (recipe_ids steps) ≡ true) ↔ (
          Reached (upstream_recipes graph) producer_ids r
          × Rebuilt force stale graph (upstream_recipes graph) r)
  pub numbers : NumberedFrom 0 steps

pub deps_of-upstream :
    (graph : RecipeGraph) (closure : List ℕ) (r u : ℕ)
    → member u (deps_of graph closure r) ≡ true
    → member u (upstream_recipes graph r) ≡ true
unfolding deps_of
deps_of-upstream graph closure r u d =
    ground (arith, d, member-keep u (λ x. member x closure) (upstream_recipes graph r))

module _ (force : Bool) (stale : ℕ → ℕ → Bool) (graph : RecipeGraph) (producer_ids closure : List ℕ)
    (all : (r : ℕ)
      → (member r closure ≡ true) ↔ Reached (upstream_recipes graph) producer_ids r) where
  widen :
      {r : ℕ}
      → Rebuilt force stale graph (deps_of graph closure) r
      → Rebuilt force stale graph (upstream_recipes graph) r
  widen (itself has why) = itself has why
  widen (through {r} {u} has dep w) = through has (deps_of-upstream graph closure r u dep) (widen w)

  narrow :
      {r : ℕ}
      → Reached (upstream_recipes graph) producer_ids r
      → Rebuilt force stale graph (upstream_recipes graph) r
      → Rebuilt force stale graph (deps_of graph closure) r
  unfolding deps_of
  narrow reached (itself has why) = itself has why
  narrow reached (through {r} {u} has dep w) =
      through has
        (ground (
          arith,
          dep,
          (all u).1 (onward reached dep),
          member-keep u (λ x. member x closure) (upstream_recipes graph r),
        ))
        (narrow (onward reached dep) w)

  select_steps-AreSteps :
      (ordered : List ℕ)
      → ((x : ℕ) → count x ordered ≡ count x closure)
      → IsOrdered (deps_of graph closure) [] ordered
      → AreSteps force stale graph producer_ids (select_steps force stale graph ordered [] 0)
  select_steps-AreSteps ordered same o = record {
    steps_of = λ r.
        let loop =
          select_steps-Rebuilt force stale graph closure ordered [] [] 0 (λ u m. absurd (cc m))
            at_all o (nothing-Included force stale graph (deps_of graph closure)) r in
        (
          λ m. let was = loop.0 m in ((all r).0 (at_all r (was.0)), widen (was.1)),
          λ m. loop.1 (sym (listed r) ∙ (all r).1 (m.0), narrow (m.0) (m.1)),
        );
    numbers = select_steps-NumberedFrom force stale graph ordered [] 0;
  }
    where
      listed : (u : ℕ) → member u closure ≡ member u ordered
      listed u = member-count u closure ∙ ap (leb 1) (sym (same u)) ∙ sym (member-count u ordered)

      at_all : (u : ℕ) → member u ordered ≡ true → member u closure ≡ true
      at_all u m = listed u ∙ m

-- Where some rank grows along the recipe graph, a build is resolved, and the steps are those of the
-- recipes to run among those that the targets are built from, numbered from zero.
pub build_steps-AreSteps :
    (force : Bool) (stale : ℕ → ℕ → Bool) (graph : RecipeGraph) (producer_ids : List ℕ)
    (rank : ℕ → ℕ)
    → ((r u : ℕ) → member u (upstream_recipes graph r) ≡ true → rank u < rank r)
    → (steps : List BuildStep) × (build_steps force stale graph producer_ids ≡ ok steps)
      × AreSteps force stale graph producer_ids steps
unfolding build_steps
build_steps-AreSteps force stale graph producer_ids rank grows =
    let (closure, e, all) = upstream_closure_lem graph producer_ids in
    let (ordered, f, same, o) =
      topo_order_lem closure graph rank
        (λ r u m d. grows r u (deps_of-upstream graph closure r u d)) in
    (
      select_steps force stale graph ordered [] 0,
      rw (e, f) refl,
      select_steps-AreSteps force stale graph producer_ids closure all ordered same o,
    )
