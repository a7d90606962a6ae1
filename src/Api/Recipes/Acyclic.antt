-- ===== src/Api/Recipes/Acyclic.antt =====
-- What the check for a cycle finds, and that a recipe it lets pass leaves the graph without one.
use mathlib.Core.Path.{subst}
use osaip.Base.{
  ℕ, ◌≡◌, ◌≢◌, ◌⊎◌, inl, inr, refl, sym, ap, Bool, true, false, Option, none, some, List, [], ◌∷◌,
  length, ◌==◌, if◌then◌else◌, get_key, keys, arith, Bool-cases,
}
use osaip.Base.Worklist.{member, Walked, stopped, exhausted, out_of_fuel}
use osaip.Base.Worklist.Ends.{walk_each_ends}
use osaip.Base.Worklist.Reached.{Reached, start, onward, Means, walk_each-Means}
use osaip.Api.Recipes.{
  RecipeGraph, upstream, inputs_of, overlay, produces, search_fuel, was_found, would_create_cycle,
}

-- A dataset that no recipe produces is made from nothing.
get_key-keys :
    (d : ℕ) (pairs : List (ℕ × ℕ)) → member d (keys pairs) ≡ false → get_key d pairs ≡ none
get_key-keys d [] h = refl
get_key-keys d ((k, v) ∷ pairs) h = ground (arith, get_key-keys d pairs)

upstream-keys :
    (graph : RecipeGraph) (d : ℕ)
    → member d (keys graph.producer) ≡ false
    → length (upstream graph d) ≡ 0
unfolding upstream
upstream-keys graph d h = rw (get_key-keys d graph.producer h, inputs_of) refl

module _ (graph : RecipeGraph) (recipe : ℕ) (input_ids output_ids : List ℕ) where
  abbrev candidate : RecipeGraph
  candidate = overlay graph recipe input_ids output_ids

  -- The two outcomes of the check.
  IsDecided : Option Bool → Type 0
  IsDecided w =
      ((w ≡ some true)
        × ((d : ℕ) × Reached (upstream candidate) input_ids d × (member d output_ids ≡ true)))
      ⊎ ((w ≡ some false)
          × ((d : ℕ) → Reached (upstream candidate) input_ids d → member d output_ids ≡ false))

  was_found-IsDecided :
      (w : Walked)
      → w ≢ out_of_fuel
      → Means (λ d. member d output_ids) (upstream candidate) input_ids w
      → IsDecided (was_found w)
  unfolding was_found IsDecided Means
  was_found-IsDecided (stopped d) ends h = inl (refl, (d, h.0, h.1))
  was_found-IsDecided (exhausted seen) ends h = inr (refl, h.1)
  was_found-IsDecided out_of_fuel ends h = absurd (ends refl)

  -- The search ends, and it says that there is a cycle exactly when an output of the recipe is
  -- among what its inputs are made from, over the graph with the recipe's edges.
  pub would_create_cycle_lem :
      ((would_create_cycle graph recipe input_ids output_ids ≡ some true)
        × ((d : ℕ) × Reached (upstream candidate) input_ids d × (member d output_ids ≡ true)))
      ⊎ ((would_create_cycle graph recipe input_ids output_ids ≡ some false)
          × ((d : ℕ) → Reached (upstream candidate) input_ids d → member d output_ids ≡ false))
  unfolding would_create_cycle search_fuel IsDecided
  would_create_cycle_lem =
      was_found-IsDecided _
        (walk_each_ends (upstream candidate) (λ d. member d output_ids) (keys candidate.producer)
          (upstream-keys candidate) (search_fuel candidate) input_ids [] (omega arith))
        (walk_each-Means (λ d. member d output_ids) (upstream candidate) input_ids
          (search_fuel candidate))

-- A way of one step or more from a dataset to one that it is made from.
pub data Way (next : ℕ → List ℕ) : ℕ → ℕ → Type 0 where
  one : {x y : ℕ} → member y (next x) ≡ true → Way next x y
  more : {x y z : ℕ} → Way next x y → member z (next y) ≡ true → Way next x z

-- No dataset is made from itself.
unfoldable pub IsAcyclic : RecipeGraph → Type 0
IsAcyclic graph = (d : ℕ) → ¬ Way (upstream graph) d d

Reached-Way :
    (next : ℕ → List ℕ) (starts : List ℕ) {x y : ℕ}
    → Reached next starts x
    → Way next x y
    → Reached next starts y
Reached-Way next starts r (one e) = onward r e
Reached-Way next starts r (more w e) = onward (Reached-Way next starts r w) e

get_key-produces :
    (d recipe : ℕ) (ids : List ℕ) (producer : List (ℕ × ℕ))
    → get_key d (produces recipe ids producer)
      ≡ (if member d ids then some recipe else get_key d producer)
unfolding produces
get_key-produces d recipe [] producer = refl
get_key-produces d recipe (i ∷ is) producer = ground (arith, get_key-produces d recipe is producer)

inputs_of-other :
    (recipe : ℕ) (ids : List ℕ) (inputs : List (ℕ × List ℕ)) (p : Option ℕ)
    → p ≢ some recipe
    → inputs_of ((recipe, ids) ∷ inputs) p ≡ inputs_of inputs p
unfolding inputs_of
inputs_of-other recipe ids inputs none ne = refl
inputs_of-other recipe ids inputs (some p) ne = elim (Bool-cases (recipe == p)) [
  | inl same ↦ absurd (ne (ap some (ground arith)))
  | inr other ↦ rw other refl
]

module _ (graph : RecipeGraph) (recipe : ℕ) (input_ids output_ids : List ℕ) where
  abbrev made : ℕ → List ℕ
  made = upstream (overlay graph recipe input_ids output_ids)

  upstream-output : (d : ℕ) → member d output_ids ≡ true → made d ≡ input_ids
  unfolding upstream overlay inputs_of
  upstream-output d listed =
      rw (get_key-produces d recipe output_ids graph.producer, listed) (ground arith)

  module _
      (owned : (d : ℕ) → get_key d graph.producer ≡ some recipe → member d output_ids ≡ true) where
    upstream-other : (d : ℕ) → member d output_ids ≡ false → made d ≡ upstream graph d
    unfolding upstream overlay
    upstream-other d unlisted =
        rw (get_key-produces d recipe output_ids graph.producer, unlisted)
          (inputs_of-other recipe input_ids graph.inputs (get_key d graph.producer)
            (λ e. cc (owned d e, unlisted)))

    -- A way uses only edges of the graph, or it passes an output of the recipe.
    split-Way :
        {x y : ℕ}
        → Way made x y
        → Way (upstream graph) x y
          ⊎ ((o : ℕ) × (member o output_ids ≡ true)
              × ((o ≡ x) ⊎ Way made x o)
              × Reached made input_ids y)
    split-Way (one {x} {y} e) = elim (Bool-cases (member x output_ids)) [
      | inl listed ↦ inr (x, listed, inl refl, start (rw (upstream-output x listed) at e))
      | inr unlisted ↦ inl (one (rw (upstream-other x unlisted) at e))
    ]
    split-Way (more {x} {y} {z} w e) = elim (split-Way w) [
      | inr (o, listed, to, reached) ↦ inr (o, listed, to, onward reached e)
      | inl old ↦ elim (Bool-cases (member y output_ids)) [
        | inl listed ↦ inr (y, listed, inr w, start (rw (upstream-output y listed) at e))
        | inr unlisted ↦ inl (more old (rw (upstream-other y unlisted) at e))
      ]
    ]

    no-Way_round :
        IsAcyclic graph
        → ((d : ℕ) → Reached made input_ids d → member d output_ids ≡ false)
        → (d : ℕ) → ¬ Way made d d
    unfolding IsAcyclic
    no-Way_round acyclic clear d w = elim (split-Way w) [
      | inl old ↦ acyclic d old
      | inr (o, listed, inl same, reached) ↦
          cc (listed, clear o (subst (Reached made input_ids) (sym same) reached))
      | inr (o, listed, inr to, reached) ↦
          cc (listed, clear o (Reached-Way made input_ids reached to))
    ]

-- A recipe that the check lets pass leaves a graph without cycles without cycles, where the recipe
-- keeps the outputs that it already produces.
pub would_create_cycle-IsAcyclic :
    (graph : RecipeGraph) (recipe : ℕ) (input_ids output_ids : List ℕ)
    → IsAcyclic graph
    → ((d : ℕ) → get_key d graph.producer ≡ some recipe → member d output_ids ≡ true)
    → would_create_cycle graph recipe input_ids output_ids ≡ some false
    → IsAcyclic (overlay graph recipe input_ids output_ids)
unfolding IsAcyclic
would_create_cycle-IsAcyclic graph recipe input_ids output_ids acyclic owned passed =
    elim (would_create_cycle_lem graph recipe input_ids output_ids) [
      | inl (refused, _) ↦ absurd (cc (refused, passed))
      | inr (_, clear) ↦ no-Way_round graph recipe input_ids output_ids owned acyclic clear
    ]
