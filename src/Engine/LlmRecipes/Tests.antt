-- ===== src/Engine/LlmRecipes/Tests.antt =====
-- A dataset of personal data with a column of special data.
use osaip.Base.{◌≡◌, refl, some, true, String, List, [], ◌∷◌, All, map}
use osaip.Guardrails.Sovereignty.{is_allowed}
use osaip.Engine.LlmRecipes.{classification_floor, column_label, table_of, rank}
use osaip.Engine.LlmRecipes.Floor.{classification_floor-is_allowed}

abbrev labels : List (String × String)
labels = ("diagnosis", "bijzonder") ∷ []

floor_of_diagnosis :
    classification_floor ("name" ∷ "diagnosis" ∷ []) (some labels) "persoonsgegevens" ≡ "bijzonder"
unfolding classification_floor rank
floor_of_diagnosis = refl

classification_floor-is_allowed_example :
    (is_allowed (some "persoonsgegevens") "local" ≡ true)
    × All
        (λ label. is_allowed (some label) "local" ≡ true)
        (map (column_label labels "persoonsgegevens") ("name" ∷ "diagnosis" ∷ []))
unfolding table_of
classification_floor-is_allowed_example =
    classification_floor-is_allowed ("name" ∷ "diagnosis" ∷ []) (some labels) "persoonsgegevens"
      "local" refl (unfold classification_floor rank is_allowed in refl)
