-- ===== src/Api/Recipes.antt =====
-- apps/api/osaip_api/recipes_service.py: the recipe graph, its checks and the freshness of a dataset.
pub mod Acyclic
mod Tests
use osaip.Base.{
  ℕ, suc, ◌+◌, String, Bool, true, false, not, ◌&&◌, ◌||◌, Option, none, some, List, [], ◌∷◌, ◌++◌,
  map, length, ltb, ◌==◌, ◌=s◌, if◌then◌else◌, get_key, get_list, keys,
}
use osaip.Base.Worklist.{member, Walked, stopped, exhausted, out_of_fuel, walk_each}
use osaip.Base.Worklist.Ends.{weight}

-- The rows that `load_graph` reads.
pub record Recipe : Type 0 where
  pub id : ℕ
  pub project_id : ℕ
  pub status : String
  pub config_hash : String

-- A row of RecipeInput or of RecipeOutput.
pub record Link : Type 0 where
  pub recipe_id : ℕ
  pub dataset_id : ℕ
  pub ordinal : ℕ

pub record RecipeGraph : Type 0 where
  pub producer : List (ℕ × ℕ)
  pub inputs : List (ℕ × List ℕ)
  pub outputs : List (ℕ × List ℕ)

-- `select(Recipe.id).where(project_id == ..., status == "active")`
active_ids : ℕ → List Recipe → List ℕ
active_ids project [] = []
active_ids project (r ∷ rs) =
    let rest = active_ids project rs in
    if r.project_id == project && r.status =s "active" then r.id ∷ rest else rest

-- `order_by(ordinal)`
insert_link : Link → List Link → List Link
insert_link l [] = l ∷ []
insert_link l (k ∷ ks) = if ltb k.ordinal l.ordinal then k ∷ insert_link l ks else l ∷ k ∷ ks

sort_links : List Link → List Link
unfolding insert_link
sort_links [] = []
sort_links (l ∷ ls) = insert_link l (sort_links ls)

-- The datasets of one recipe, from rows in the order of the query.
linked : ℕ → List Link → List ℕ
linked recipe [] = []
linked recipe (l ∷ ls) =
    let rest = linked recipe ls in if l.recipe_id == recipe then l.dataset_id ∷ rest else rest

links_of : List Link → List ℕ → List (ℕ × List ℕ)
unfolding linked
links_of links [] = []
links_of links (r ∷ rs) = (r, linked r links) ∷ links_of links rs

-- `producer[dataset_id] = recipe_id`: a later row wins.
producers : List ℕ → List Link → List (ℕ × ℕ) → List (ℕ × ℕ)
producers recipes [] producer = producer
producers recipes (l ∷ ls) producer =
    producers recipes ls
      (if member l.recipe_id recipes then (l.dataset_id, l.recipe_id) ∷ producer else producer)

unfoldable pub load_graph : ℕ → List Recipe → List Link → List Link → RecipeGraph
unfolding active_ids sort_links links_of producers
load_graph project recipes inputs outputs =
    let ids = active_ids project recipes in
    record {
      producer = producers ids (sort_links outputs) [];
      inputs = links_of (sort_links inputs) ids;
      outputs = links_of (sort_links outputs) ids;
    }

-- INPUT_ARITY of packages/shared/osaip_shared/recipes.py; a kind that is not listed raises.
unfoldable pub input_arity : String → Option (ℕ × Option ℕ)
input_arity kind =
    if kind =s "prepare" || kind =s "group" || kind =s "split" || kind =s "sample"
    then some (1, some 1)
    else if kind =s "join"
    then some (2, some 2)
    else if kind =s "stack"
    then some (2, none)
    else if kind =s "sql" || kind =s "python"
    then some (1, none)
    else none

above : ℕ → Option ℕ → Bool
above count none = false
above count (some hi) = ltb hi count

-- Whether `check_arity` raises nothing.
within_arity : ℕ → Option (ℕ × Option ℕ) → Bool
unfolding above
within_arity count none = false
within_arity count (some (lo, hi)) = not (ltb count lo || above count hi)

unfoldable pub check_arity : String → ℕ → Bool
unfolding within_arity input_arity
check_arity kind input_count = within_arity input_count (input_arity kind)

-- The datasets that a dataset is made from.
inputs_of : List (ℕ × List ℕ) → Option ℕ → List ℕ
inputs_of inputs none = []
inputs_of inputs (some recipe) = get_list recipe inputs

unfoldable pub upstream : RecipeGraph → ℕ → List ℕ
unfolding inputs_of
upstream graph dataset = inputs_of graph.inputs (get_key dataset graph.producer)

produces : ℕ → List ℕ → List (ℕ × ℕ) → List (ℕ × ℕ)
produces recipe [] producer = producer
produces recipe (d ∷ ds) producer = (d, recipe) ∷ produces recipe ds producer

-- The graph with the edges of the candidate.
unfoldable pub overlay : RecipeGraph → ℕ → List ℕ → List ℕ → RecipeGraph
unfolding produces
overlay graph recipe input_ids output_ids = record {
  producer = produces recipe output_ids graph.producer;
  inputs = (recipe, input_ids) ∷ graph.inputs;
  outputs = graph.outputs;
}

-- More rounds than a search of the whole graph takes.
search_fuel : RecipeGraph → ℕ
search_fuel graph = suc (weight (upstream graph) [] (keys graph.producer))

-- None where the fuel runs out.
was_found : Walked → Option Bool
was_found (stopped x) = some true
was_found (exhausted seen) = some false
was_found out_of_fuel = none

unfoldable pub would_create_cycle : RecipeGraph → ℕ → List ℕ → List ℕ → Option Bool
unfolding was_found search_fuel
would_create_cycle graph recipe input_ids output_ids =
    let candidate = overlay graph recipe input_ids output_ids in
    was_found (
      walk_each (λ d. member d output_ids) (upstream candidate) (search_fuel candidate) input_ids
        [])

pub record DatasetVersion : Type 0 where
  pub recipe_config_hash : Option String
  pub input_versions : List (ℕ × ℕ)

pub record InputDataset : Type 0 where
  pub id : ℕ
  pub current_version : ℕ

pub data Status : Type 0 where
  never_built stale fresh : Status

-- `consumed.get(str(input_dataset.id), 0)`
consumed_of : Option ℕ → ℕ
consumed_of none = 0
consumed_of (some version) = version

unfoldable pub has_newer : List (ℕ × ℕ) → List InputDataset → Bool
unfolding consumed_of
has_newer consumed [] = false
has_newer consumed (d ∷ ds) =
    let rest = has_newer consumed ds in
    ltb (consumed_of (get_key d.id consumed)) d.current_version || rest

same_hash : Option String → Option String → Bool
same_hash none none = true
same_hash (some a) (some b) = a =s b
same_hash _ _ = false

unfoldable pub compute_staleness :
    ℕ → Option DatasetVersion → Option String → List InputDataset → Status
unfolding same_hash
compute_staleness current_version none producer_hash inputs = Status.never_built
compute_staleness current_version (some version) producer_hash inputs =
    if current_version == 0
    then Status.never_built
    else if not (same_hash producer_hash version.recipe_config_hash)
    then Status.stale
    else if has_newer version.input_versions inputs
    then Status.stale
    else Status.fresh
