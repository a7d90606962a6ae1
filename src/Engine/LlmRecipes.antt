-- ===== src/Engine/LlmRecipes.antt =====
-- The classification floor of packages/engine/osaip_engine/llm_recipes.py.
pub mod Floor
mod Tests
use osaip.Base.{
  ℕ, String, Option, none, some, List, [], ◌∷◌, map, length, max_from, ◌=s◌, if◌then◌else◌,
}

-- `_CLASS_ORDER.index(label)`, which raises on an unknown label.
pub index : String → Option ℕ
index label =
    if label =s "none"
    then some 0
    else if label =s "persoonsgegevens"
    then some 1
    else if label =s "bijzonder"
    then some 2
    else if label =s "bsn"
    then some 3
    else none

-- `label or default`
pub or_default : Option String → String → String
or_default none default = default
or_default (some label) default = if label =s "" then default else label

-- The handler of that error: an unknown label is stricter than all others.
pub rank_of : Option ℕ → ℕ
rank_of none = 4
rank_of (some n) = n

unfoldable pub rank : String → ℕ
unfolding index or_default rank_of
rank label = rank_of (index (or_default (some label) "none"))

-- `(column_classifications or {}).get(column)`
pub get : String → List (String × String) → Option String
get column [] = none
get column ((c, label) ∷ labels) = if c =s column then some label else get column labels

-- The label of a column: its own, or the dataset's.
pub column_label : List (String × String) → String → String → String
unfolding get or_default
column_label labels dataset column = or_default (get column labels) dataset

-- A missing table of labels is the empty one.
pub table_of : Option (List (String × String)) → List (String × String)
table_of none = []
table_of (some labels) = labels

unfoldable pub classification_floor :
    List String → Option (List (String × String)) → String → String
unfolding column_label table_of rank
classification_floor columns labels dataset =
    max_from rank dataset (map (column_label (table_of labels) dataset) columns)
