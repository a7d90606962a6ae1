-- ===== src/Guardrails/Types.antt =====
-- packages/guardrails/osaip_guardrails/types.py: the vocabulary of the stages. A text is the list
-- of its character codes. `details` is the dictionary that each rule writes, as a constructor for
-- each rule; `Detection.score` is left out, since nothing here reads it.
use Prim.Native.Char.{code}
use osaip.Base.{ℕ, ◌-◌, String, Bool, ◌&&◌, Option, List, [], ◌∷◌, ◌++◌, map, leb, if◌then◌else◌}

abbrev pub Text : Type 0
Text = List ℕ

pub data Action : Type 0 where
  allow redact block : Action

pub record Detection : Type 0 where
  pub kind : String
  pub start : ℕ
  pub end : ℕ
  pub detector : String

abbrev pub codes : String → Text
codes String.[] = []
codes (String.◌∷◌ c s) = code c ∷ codes s

-- `str.upper` of one ASCII character.
upper : ℕ → ℕ
upper c = if leb b'a' c && leb c b'z' then c - 32 else c

unfoldable pub placeholder : Detection → Text
unfolding upper
placeholder d = b'<' ∷ (map upper (codes d.kind) ++ b'>' ∷ [])

pub data Details : Type 0 where
  pii_counts : List (String × ℕ) → ℕ → Details
  input_length : ℕ → ℕ → Details
  residency : String → Option String → String → Option String → Details
  schema_problems : List String → ℕ → Details
  schema_valid : Details

pub record GuardrailEvent : Type 0 where
  pub stage : String
  pub rule : String
  pub action : Action
  pub details : Details

pub record StageResult : Type 0 where
  pub text : Text
  pub events : List GuardrailEvent
  pub blocked : Bool
  pub reason : Option String
