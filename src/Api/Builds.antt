-- ===== src/Api/Builds.antt =====
-- apps/api/osaip_api/build_service.py: from the targets of a build to its steps in order.
pub mod Closure
pub mod Behind
pub mod Order
pub mod Rounds
pub mod Select
pub mod Steps
mod Tests
use osaip.Base.{
  ℕ, zero, suc, ◌+◌, ◌≤◌, String, Bool, true, false, not, ◌&&◌, ◌||◌, Option, none, some, List, [],
  ◌∷◌, ◌++◌, map, length, keep, any_of, leb, ◌==◌, ◌=s◌, if◌then◌else◌, get_key, get_list, keys,
  contains,
}
use osaip.Base.Worklist.{member, push_all, Walked, stopped, exhausted, out_of_fuel, walk}
use osaip.Base.Worklist.Ends.{weight}
use osaip.Api.Recipes.{
  RecipeGraph, Recipe, Link, DatasetVersion, InputDataset, Status, compute_staleness, load_graph,
}

pub record BuildStep : Type 0 where
  pub recipe_id : ℕ
  pub target_dataset_id : ℕ
  pub ordinal : ℕ

-- The problems that a build request ends with, and a loop that did not end.
pub data Problem : Type 0 where
  target_not_found : List String → Problem
  nothing_to_build : List String → Problem
  cyclic_build_graph : Problem
  no_fuel : Problem

pub data Result (A : Type 0) : Type 0 where
  ok : A → Result A
  err : Problem → Result A

infixl 5 ◌>>=◌
abbrev pub ◌>>=◌ : {A B : Type 0} → Result A → (A → Result B) → Result B
ok a >>= f = f a
err e >>= f = err e

-- The recipes that produce the inputs, in the order of the inputs.
producers_of : List (ℕ × ℕ) → List ℕ → List ℕ
producers_of producer [] = []
producers_of producer (d ∷ ds) =
    let rest = producers_of producer ds in
    elim (get_key d producer) [ none ↦ rest | some recipe ↦ recipe ∷ rest ]

unfoldable pub upstream_recipes : RecipeGraph → ℕ → List ℕ
unfolding producers_of
upstream_recipes graph recipe = producers_of graph.producer (get_list recipe graph.inputs)

-- More rounds than `_upstream_closure` takes.
closure_fuel : RecipeGraph → List ℕ → ℕ
closure_fuel graph producer_ids =
    length producer_ids + weight (upstream_recipes graph) [] (keys graph.inputs)

closure_of : Walked → Result (List ℕ)
closure_of (stopped x) = err no_fuel
closure_of (exhausted seen) = ok seen
closure_of out_of_fuel = err no_fuel

-- `_upstream_closure`: the search of all recipes upstream, which nothing stops.
unfoldable pub upstream_closure : RecipeGraph → List ℕ → Result (List ℕ)
unfolding closure_fuel closure_of
upstream_closure graph producer_ids = closure_of (
    walk (λ r. false) (upstream_recipes graph) (closure_fuel graph producer_ids)
      (push_all [] producer_ids) [])

-- `deps`: a recipe with the recipes of the closure that it waits for.
unfoldable pub deps_of : RecipeGraph → List ℕ → ℕ → List ℕ
deps_of graph closure recipe = keep (λ u. member u closure) (upstream_recipes graph recipe)

pub waiting_from : RecipeGraph → List ℕ → List ℕ → List (ℕ × List ℕ)
waiting_from graph closure [] = []
waiting_from graph closure (r ∷ rs) = (r, deps_of graph closure r) ∷ waiting_from graph closure rs

pub is_empty : List ℕ → Bool
is_empty [] = true
is_empty (x ∷ xs) = false

pub ready_of : List (ℕ × List ℕ) → List ℕ
unfolding is_empty
ready_of [] = []
ready_of ((r, ds) ∷ ws) = let rest = ready_of ws in if is_empty ds then r ∷ rest else rest

-- `sorted(..., key=str)`
insert_id : ℕ → List ℕ → List ℕ
insert_id x [] = x ∷ []
insert_id x (y ∷ ys) = if leb x y then x ∷ y ∷ ys else y ∷ insert_id x ys

pub sort_ids : List ℕ → List ℕ
unfolding insert_id
sort_ids [] = []
sort_ids (x ∷ xs) = insert_id x (sort_ids xs)

-- `del deps[recipe_id]` of the ready ones, and `difference_update(ready)` of the others.
pub remove_ready : List ℕ → List (ℕ × List ℕ) → List (ℕ × List ℕ)
unfolding is_empty
remove_ready ready [] = []
remove_ready ready ((r, ds) ∷ ws) =
    let rest = remove_ready ready ws in
    if is_empty ds then rest else (r, keep (λ d. not (member d ready)) ds) ∷ rest

-- `while deps`, with the recipes ordered so far.
pub topo_loop : ℕ → List (ℕ × List ℕ) → List ℕ → Result (List ℕ)
unfolding ready_of sort_ids remove_ready is_empty
topo_loop fuel [] ordered = ok ordered
topo_loop zero (w ∷ ws) ordered = err no_fuel
topo_loop (suc fuel) (w ∷ ws) ordered =
    let ready = sort_ids (ready_of (w ∷ ws)) in
    let rest = topo_loop fuel (remove_ready ready (w ∷ ws)) (ordered ++ ready) in
    if is_empty ready then err cyclic_build_graph else rest

-- `_topo_order`; each round removes a recipe.
unfoldable pub topo_order : List ℕ → RecipeGraph → Result (List ℕ)
unfolding topo_loop waiting_from
topo_order closure graph = topo_loop (length closure) (waiting_from graph closure closure) []

-- A row of Dataset, and of DatasetVersion under its dataset and number.
pub record Dataset : Type 0 where
  pub id : ℕ
  pub project_id : ℕ
  pub name : String
  pub status : String
  pub current_version : ℕ

pub record VersionRow : Type 0 where
  pub dataset_id : ℕ
  pub version : ℕ
  pub built : DatasetVersion

pub record Tables : Type 0 where
  pub datasets : List Dataset
  pub recipes : List Recipe
  pub recipe_inputs : List Link
  pub recipe_outputs : List Link
  pub versions : List VersionRow

-- The active datasets of a project.
active_datasets : ℕ → List Dataset → List Dataset
active_datasets project ds = keep (λ d. d.project_id == project && d.status =s "active") ds

-- `by_name`: of two rows of one name the later one stays.
named : String → List Dataset → Option Dataset
named name [] = none
named name (d ∷ ds) = elim (named name ds) [
  | some later ↦ some later
  | none ↦ if d.name =s name then some d else none
]

missing_of : List Dataset → List String → List String
unfolding named
missing_of ds [] = []
missing_of ds (n ∷ ns) =
    let rest = missing_of ds ns in elim (named n ds) [ none ↦ n ∷ rest | some d ↦ rest ]

found_of : List Dataset → List String → List Dataset
unfolding named
found_of ds [] = []
found_of ds (n ∷ ns) =
    let rest = found_of ds ns in elim (named n ds) [ none ↦ rest | some d ↦ d ∷ rest ]

unless_any : {A : Type 0} → List String → (List String → Problem) → A → Result A
unless_any [] problem a = ok a
unless_any (n ∷ ns) problem a = err (problem (n ∷ ns))

unfoldable pub resolve_targets : List Dataset → ℕ → List String → Result (List Dataset)
unfolding active_datasets missing_of found_of unless_any
resolve_targets datasets project names =
    let rows = active_datasets project datasets in
    unless_any (missing_of rows names) target_not_found (found_of rows names)

-- `unproduced`: the names of the targets that no recipe produces.
unproduced : RecipeGraph → List Dataset → List String
unproduced graph [] = []
unproduced graph (d ∷ ds) =
    let rest = unproduced graph ds in
    elim (get_key d.id graph.producer) [ none ↦ d.name ∷ rest | some recipe ↦ rest ]

by_id : ℕ → List Dataset → Option Dataset
by_id id [] = none
by_id id (d ∷ ds) = if d.id == id then some d else by_id id ds

-- `current_versions`: the row whose number is the dataset's current one.
current_of : Dataset → List VersionRow → Option DatasetVersion
current_of d [] = none
current_of d (v ∷ vs) =
    if v.dataset_id == d.id && v.version == d.current_version then some v.built else current_of d vs

config_hash_of : ℕ → List Recipe → Option String
config_hash_of recipe [] = none
config_hash_of recipe (r ∷ rs) =
    if r.id == recipe then some r.config_hash else config_hash_of recipe rs

input_datasets : List Dataset → List ℕ → List InputDataset
unfolding by_id
input_datasets ds [] = []
input_datasets ds (i ∷ is) =
    let rest = input_datasets ds is in
    elim (by_id i ds) [
      | none ↦ rest
      | some d ↦ record { id = d.id; current_version = d.current_version } ∷ rest
    ]

is_fresh : Status → Bool
is_fresh Status.never_built = false
is_fresh Status.stale = false
is_fresh Status.fresh = true

-- `_output_stale`, for a recipe with the primary output given.
unfoldable pub output_stale : Tables → ℕ → RecipeGraph → ℕ → ℕ → Bool
unfolding by_id current_of config_hash_of input_datasets is_fresh active_datasets
output_stale db project graph recipe primary =
    let ds = active_datasets project db.datasets in
    elim (by_id primary ds) [
      | none ↦ true
      | some output ↦ not (
          is_fresh (
            compute_staleness output.current_version (current_of output db.versions)
              (config_hash_of recipe db.recipes)
              (input_datasets ds (get_list recipe graph.inputs))))
    ]

-- `any(graph.producer.get(input_id) in included ...)`
unfoldable pub upstream_included : RecipeGraph → List ℕ → ℕ → Bool
upstream_included graph included recipe =
    any_of (λ u. member u included) (upstream_recipes graph recipe)

-- `if not outputs: continue`, and `include`: the primary output of a recipe that becomes a step.
-- `stale` is `_output_stale` for a recipe and its primary output.
unfoldable pub step_output : Bool → (ℕ → ℕ → Bool) → RecipeGraph → List ℕ → ℕ → List ℕ → Option ℕ
step_output force stale graph included r [] = none
step_output force stale graph included r (primary ∷ others) =
    if force || stale r primary || upstream_included graph included r then some primary else none

-- The loop over the order, with the recipes included so far and the number of steps.
unfoldable pub select_steps :
    Bool → (ℕ → ℕ → Bool) → RecipeGraph → List ℕ → List ℕ → ℕ → List BuildStep
select_steps force stale graph [] included count = []
select_steps force stale graph (r ∷ rs) included count =
    let passed = select_steps force stale graph rs included count in
    let taken = select_steps force stale graph rs (r ∷ included) (suc count) in
    elim (step_output force stale graph included r (get_list r graph.outputs)) [
      | none ↦ passed
      | some primary ↦
          record { recipe_id = r; target_dataset_id = primary; ordinal = count } ∷ taken
    ]

-- The steps for the recipes that produce the targets.
unfoldable pub build_steps : Bool → (ℕ → ℕ → Bool) → RecipeGraph → List ℕ → Result (List BuildStep)
build_steps force stale graph producer_ids = upstream_closure graph producer_ids >>= λ closure.
    topo_order closure graph >>= λ ordered. ok (select_steps force stale graph ordered [] 0)

-- The ids of the recipes that produce the targets.
target_producers : RecipeGraph → List Dataset → List ℕ
target_producers graph ds = producers_of graph.producer (map (λ d. d.id) ds)

unfoldable pub resolve_build : Tables → ℕ → List String → Bool → Result (List BuildStep)
unfolding unless_any unproduced target_producers producers_of
resolve_build db project names force = resolve_targets db.datasets project names >>= λ targets.
    let graph = load_graph project db.recipes db.recipe_inputs db.recipe_outputs in
    unless_any (unproduced graph targets) nothing_to_build targets >>= λ built.
    build_steps force (output_stale db project graph) graph (target_producers graph built)
