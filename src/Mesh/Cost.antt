-- ===== src/Mesh/Cost.antt =====
-- apps/mesh/osaip_mesh/cost.py. The encoder of `tiktoken` is a parameter.
pub mod Bounds
mod Tests
use Prim.Native.Nat.{max}
use Prim.Native.String.{◌++◌ as ◌+s◌}
use osaip.Base.{
  ℕ, ◌+◌, ◌-◌, ◌*◌, ◌/◌, String, Bool, true, false, Option, none, some, List, [], ◌∷◌, length, ◌=s◌,
  if◌then◌else◌,
}
use osaip.Guardrails.Types.{Text}

pub record CostResult : Type 0 where
  pub cost_micros : ℕ
  pub currency : String
  pub pricing_unknown : Bool

pub record Price : Type 0 where
  pub in_per_mtok_micros : ℕ
  pub out_per_mtok_micros : ℕ

pub record PriceTable : Type 0 where
  pub prices : List (String × Price)
  pub currency : String

-- apps/mesh/osaip_mesh/model_prices.json
abbrev pub model_prices : PriceTable
model_prices = record {
  prices =
      ("echo/echo-1", record { in_per_mtok_micros = 0; out_per_mtok_micros = 0 })
      ∷ ("openai/gpt-4o", record { in_per_mtok_micros = 2300000; out_per_mtok_micros = 9200000 })
      ∷ ("openai/gpt-4o-mini", record { in_per_mtok_micros = 138000; out_per_mtok_micros = 552000 })
      ∷ (
        "anthropic/claude-sonnet-4",
        record { in_per_mtok_micros = 2760000; out_per_mtok_micros = 13800000 },
      )
      ∷ (
        "anthropic/claude-haiku-4-5",
        record { in_per_mtok_micros = 736000; out_per_mtok_micros = 3680000 },
      )
      ∷ ("ollama/qwen2.5", record { in_per_mtok_micros = 0; out_per_mtok_micros = 0 })
      ∷ ("ollama/llama3.2", record { in_per_mtok_micros = 0; out_per_mtok_micros = 0 })
      ∷ [];
  currency = "EUR";
}

pub price_key : String → String → String
price_key provider model = provider +s ("/" +s model)

-- `prices.get(key)`
pub get : String → List (String × Price) → Option Price
get key [] = none
get key ((k, price) ∷ prices) = if k =s key then some price else get key prices

-- `total.quantize(Decimal(1), rounding=ROUND_HALF_UP)` of `total / 1_000_000`; exact while the
-- total has at most the 28 digits of the default decimal context.
round_half_up : ℕ → ℕ
round_half_up total = (total + 500000) / 1000000

cost_of : String → Option Price → ℕ → ℕ → CostResult
unfolding round_half_up
cost_of currency none tokens_in tokens_out = record {
  cost_micros = 0;
  currency = currency;
  pricing_unknown = true;
}
cost_of currency (some entry) tokens_in tokens_out = record {
  cost_micros =
      round_half_up (tokens_in * entry.in_per_mtok_micros + tokens_out * entry.out_per_mtok_micros);
  currency = currency;
  pricing_unknown = false;
}

unfoldable pub compute_cost : PriceTable → String → String → ℕ → ℕ → CostResult
unfolding price_key get cost_of
compute_cost table provider model tokens_in tokens_out =
    cost_of table.currency (get (price_key provider model) table.prices) tokens_in tokens_out

-- `encoder` is `none` where the package or its data is missing.
unfoldable pub estimate_tokens : Option (Text → ℕ) → Text → ℕ
estimate_tokens encoder [] = 0
estimate_tokens none (c ∷ cs) = max 1 ((length (c ∷ cs) + 4 - 1) / 4)
estimate_tokens (some encode) (c ∷ cs) = max 1 (encode (c ∷ cs))
