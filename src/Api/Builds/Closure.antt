-- ===== src/Api/Builds/Closure.antt =====
-- The closure is what the targets are built from.
use osaip.Base.{ℕ, ◌≡◌, ◌≢◌, ◌↔◌, refl, true, false, List, [], ◌∷◌, length, arith, get_list, keys}
use osaip.Base.Worklist.{member, push_all, Walked, stopped, exhausted, out_of_fuel}
use osaip.Base.Worklist.Ends.{walk_ends, length-push_all}
use osaip.Base.Worklist.Reached.{Reached, Means, walk-Means}
use osaip.Api.Recipes.{RecipeGraph}
use osaip.Api.Builds.{
  ok, upstream_recipes, producers_of, upstream_closure, closure_of, closure_fuel,
}

get_list-keys :
    (r : ℕ) (inputs : List (ℕ × List ℕ)) → member r (keys inputs) ≡ false → get_list r inputs ≡ []
get_list-keys r [] h = refl
get_list-keys r ((k, v) ∷ inputs) h = ground (arith, get_list-keys r inputs)

upstream_recipes-keys :
    (graph : RecipeGraph) (r : ℕ)
    → member r (keys graph.inputs) ≡ false
    → length (upstream_recipes graph r) ≡ 0
unfolding upstream_recipes producers_of
upstream_recipes-keys graph r h = rw (get_list-keys r graph.inputs h) refl

closure_of_lem :
    (next : ℕ → List ℕ) (starts : List ℕ) (w : Walked)
    → w ≢ out_of_fuel
    → Means (λ r. false) next starts w
    → (closure : List ℕ) × (closure_of w ≡ ok closure)
      × ((r : ℕ) → (member r closure ≡ true) ↔ Reached next starts r)
unfolding closure_of Means
closure_of_lem next starts (stopped x) ends h = absurd (cc (h.1))
closure_of_lem next starts (exhausted seen) ends h = (seen, refl, h.0)
closure_of_lem next starts out_of_fuel ends h = absurd (ends refl)

-- The search upstream ends, and yields exactly the recipes that the given ones are built from,
-- directly or through others, and those themselves.
pub upstream_closure_lem :
    (graph : RecipeGraph) (producer_ids : List ℕ)
    → (closure : List ℕ) × (upstream_closure graph producer_ids ≡ ok closure)
      × ((r : ℕ) → (member r closure ≡ true) ↔ Reached (upstream_recipes graph) producer_ids r)
unfolding upstream_closure closure_fuel
upstream_closure_lem graph producer_ids =
    closure_of_lem (upstream_recipes graph) producer_ids _
      (walk_ends (upstream_recipes graph) (λ r. false) (keys graph.inputs)
        (upstream_recipes-keys graph) (closure_fuel graph producer_ids) (push_all [] producer_ids)
        [] (omega (arith, length-push_all [] producer_ids)))
      (walk-Means (λ r. false) (upstream_recipes graph) producer_ids
        (closure_fuel graph producer_ids))
