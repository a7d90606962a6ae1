-- ===== src/Api/Recipes/Tests.antt =====
-- A graph of one recipe that makes dataset 11 from dataset 10, and a second recipe to add.
use osaip.Base.{
  ℕ, ◌≡◌, ◌⊎◌, refl, sym, true, false, some, [], ◌∷◌, arith, get_key, Bool-cases, inl, inr, ◌==◌,
  ==_iff,
}
use mathlib.Core.Option.{some-injective}
use osaip.Base.Worklist.{member, walk_each, push_all}
use osaip.Base.Worklist.Ends.{weight}
use osaip.Base.Worklist.Reached.{Reached}
use osaip.Api.Recipes.{
  RecipeGraph, load_graph, input_arity, check_arity, upstream, overlay, would_create_cycle,
}
use osaip.Api.Recipes.Acyclic.{
  Way, one, more, IsAcyclic, would_create_cycle_lem, would_create_cycle-IsAcyclic,
}

abbrev graph : RecipeGraph
graph = record { producer = (11, 1) ∷ []; inputs = (1, 10 ∷ []) ∷ []; outputs = (1, 11 ∷ []) ∷ [] }

graph_loaded :
    load_graph 7
      (record { id = 1; project_id = 7; status = "active"; config_hash = "c" }
        ∷ record { id = 2; project_id = 7; status = "archived"; config_hash = "c" }
        ∷ [])
      (record { recipe_id = 1; dataset_id = 10; ordinal = 0 }
        ∷ record { recipe_id = 2; dataset_id = 11; ordinal = 0 }
        ∷ [])
      (record { recipe_id = 1; dataset_id = 11; ordinal = 0 } ∷ [])
    ≡ graph
unfolding load_graph
graph_loaded = refl

join_of_one : check_arity "join" 1 ≡ false
unfolding check_arity input_arity
join_of_one = refl

-- Only dataset 11 is made from another one.
graph-Way : {x y : ℕ} → Way (upstream graph) x y → (x ≡ 11) × (y ≡ 10)
unfolding upstream
graph-Way (one {x} {y} e) = elim (Bool-cases (11 == x)) [
  | inl here ↦ (sym ((==_iff 11 x).0 here), ground (arith, (rw here at e)))
  | inr other ↦ absurd (cc (rw other at e))
]
graph-Way (more {x} {y} {z} w e) = elim (Bool-cases (11 == y)) [
  | inl here ↦ absurd (ground (arith, here, (graph-Way w).1))
  | inr other ↦ absurd (cc (rw other at e))
]

graph-IsAcyclic : IsAcyclic graph
unfolding IsAcyclic
graph-IsAcyclic d w = let (a, b) = graph-Way w in omega (arith, a, b)

would_create_cycle_lem_example :
    ((would_create_cycle graph 2 (11 ∷ []) (12 ∷ []) ≡ some true)
      × ((d : ℕ) × Reached (upstream (overlay graph 2 (11 ∷ []) (12 ∷ []))) (11 ∷ []) d
          × (member d (12 ∷ []) ≡ true)))
    ⊎ ((would_create_cycle graph 2 (11 ∷ []) (12 ∷ []) ≡ some false)
        × ((d : ℕ)
            → Reached (upstream (overlay graph 2 (11 ∷ []) (12 ∷ []))) (11 ∷ []) d
            → member d (12 ∷ []) ≡ false))
would_create_cycle_lem_example = would_create_cycle_lem graph 2 (11 ∷ []) (12 ∷ [])

passes : would_create_cycle graph 2 (11 ∷ []) (12 ∷ []) ≡ some false
unfolding would_create_cycle walk_each push_all upstream overlay weight
passes = refl

back_is_refused : would_create_cycle graph 2 (11 ∷ []) (10 ∷ []) ≡ some true
unfolding would_create_cycle walk_each push_all upstream overlay weight
back_is_refused = refl

new_recipe : (d : ℕ) → get_key d graph.producer ≡ some 2 → member d (12 ∷ []) ≡ true
new_recipe d e = elim (Bool-cases (11 == d)) [
  | inl here ↦ absurd (omega (arith, some-injective _ _ (rw here at e)))
  | inr other ↦ absurd (cc (rw other at e))
]

would_create_cycle-IsAcyclic_example : IsAcyclic (overlay graph 2 (11 ∷ []) (12 ∷ []))
would_create_cycle-IsAcyclic_example =
    would_create_cycle-IsAcyclic graph 2 (11 ∷ []) (12 ∷ []) graph-IsAcyclic new_recipe passes
