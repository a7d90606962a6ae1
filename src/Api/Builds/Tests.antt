-- ===== src/Api/Builds/Tests.antt =====
-- Two recipes in a row: 1 makes dataset 11 from dataset 10, and 2 makes dataset 12 from dataset 11.
use osaip.Base.{
  ℕ, ◌≡◌, ◌↔◌, ◌<◌, refl, Bool, true, false, List, [], ◌∷◌, arith, Bool-cases, inl, inr, ◌==◌,
}
use osaip.Base.Worklist.{member, walk, push_all}
use osaip.Base.Worklist.Ends.{weight}
use osaip.Base.Worklist.Reached.{Reached}
use osaip.Api.Recipes.{RecipeGraph, load_graph, compute_staleness}
use osaip.Api.Builds.{
  BuildStep, Tables, ok, err, target_not_found, nothing_to_build, upstream_recipes,
  upstream_closure, deps_of, topo_order, build_steps, resolve_build, resolve_targets, select_steps,
  step_output, upstream_included, output_stale,
}
use osaip.Api.Builds.Closure.{upstream_closure_lem}
use osaip.Api.Builds.Rounds.{count}
use osaip.Api.Builds.Behind.{IsOrdered}
use osaip.Api.Builds.Order.{topo_order_lem}
use osaip.Api.Builds.Steps.{AreSteps, build_steps-AreSteps, deps_of-upstream}

abbrev graph : RecipeGraph
graph = record {
  producer = (11, 1) ∷ (12, 2) ∷ [];
  inputs = (1, 10 ∷ []) ∷ (2, 11 ∷ []) ∷ [];
  outputs = (1, 11 ∷ []) ∷ (2, 12 ∷ []) ∷ [];
}

abbrev height : ℕ → ℕ
height r = r

-- Only recipe 2 uses what another one makes.
grows : (r u : ℕ) → member u (upstream_recipes graph r) ≡ true → height u < height r
unfolding upstream_recipes
grows r u m = elim (Bool-cases (1 == r)) [
  | inl first ↦ absurd (cc (rw first at m))
  | inr other ↦ elim (Bool-cases (2 == r)) [
    | inl second ↦ ground (arith, second, (rw (other, second) at m))
    | inr neither ↦ absurd (cc (rw (other, neither) at m))
  ]
]

upstream_closure_lem_example :
    (closure : List ℕ) × (upstream_closure graph (2 ∷ []) ≡ ok closure)
    × ((r : ℕ) → (member r closure ≡ true) ↔ Reached (upstream_recipes graph) (2 ∷ []) r)
upstream_closure_lem_example = upstream_closure_lem graph (2 ∷ [])

topo_order_lem_example :
    (os : List ℕ) × (topo_order (2 ∷ 1 ∷ []) graph ≡ ok os)
    × ((x : ℕ) → count x os ≡ count x (2 ∷ 1 ∷ []))
    × IsOrdered (deps_of graph (2 ∷ 1 ∷ [])) [] os
topo_order_lem_example =
    topo_order_lem (2 ∷ 1 ∷ []) graph height
      (λ r u m d. grows r u (deps_of-upstream graph (2 ∷ 1 ∷ []) r u d))

in_order : topo_order (2 ∷ 1 ∷ []) graph ≡ ok (1 ∷ 2 ∷ [])
unfolding topo_order deps_of upstream_recipes
in_order = refl

-- The output of recipe 1 is stale.
abbrev stale : ℕ → ℕ → Bool
stale recipe primary = recipe == 1

build_steps-AreSteps_example :
    (steps : List BuildStep) × (build_steps false stale graph (2 ∷ []) ≡ ok steps)
    × AreSteps false stale graph (2 ∷ []) steps
build_steps-AreSteps_example = build_steps-AreSteps false stale graph (2 ∷ []) height grows

both_steps :
    build_steps false stale graph (2 ∷ [])
    ≡ ok (
        record { recipe_id = 1; target_dataset_id = 11; ordinal = 0 }
        ∷ record { recipe_id = 2; target_dataset_id = 12; ordinal = 1 }
        ∷ [])
unfolding build_steps upstream_closure walk push_all weight upstream_recipes topo_order deps_of
    select_steps step_output upstream_included
both_steps = refl

abbrev tables : Tables
tables = record {
  datasets =
      record { id = 10; project_id = 7; name = "raw"; status = "active"; current_version = 1 }
      ∷ record { id = 11; project_id = 7; name = "clean"; status = "active"; current_version = 0 }
      ∷ [];
  recipes = record { id = 1; project_id = 7; status = "active"; config_hash = "c" } ∷ [];
  recipe_inputs = record { recipe_id = 1; dataset_id = 10; ordinal = 0 } ∷ [];
  recipe_outputs = record { recipe_id = 1; dataset_id = 11; ordinal = 0 } ∷ [];
  versions = [];
}

never_built :
    resolve_build tables 7 ("clean" ∷ []) false
    ≡ ok (record { recipe_id = 1; target_dataset_id = 11; ordinal = 0 } ∷ [])
unfolding resolve_build resolve_targets load_graph build_steps upstream_closure walk push_all weight
    upstream_recipes topo_order deps_of select_steps step_output output_stale compute_staleness
never_built = refl

source_only : resolve_build tables 7 ("raw" ∷ []) false ≡ err (nothing_to_build ("raw" ∷ []))
unfolding resolve_build resolve_targets load_graph
source_only = refl

not_there : resolve_build tables 7 ("lost" ∷ []) false ≡ err (target_not_found ("lost" ∷ []))
unfolding resolve_build resolve_targets
not_there = refl
