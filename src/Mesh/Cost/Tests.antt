-- ===== src/Mesh/Cost/Tests.antt =====
-- Costs under the pinned prices.
use osaip.Base.{◌≡◌, refl, ◌≤◌, ◌<◌, ◌+◌, ◌*◌}
use osaip.Mesh.Cost.{compute_cost, model_prices}
use osaip.Mesh.Cost.Bounds.{compute_cost-rounds}

compute_cost-haiku : (compute_cost model_prices "anthropic" "claude-haiku-4-5" 1 1).cost_micros ≡ 4
unfolding compute_cost
compute_cost-haiku = refl

compute_cost-rounds_example :
    let cost = (compute_cost model_prices "openai" "gpt-4o" 1 1).cost_micros in
    (11500000 < cost * 1000000 + 500000) × (cost * 1000000 ≤ 12000000)
unfolding compute_cost
compute_cost-rounds_example = compute_cost-rounds model_prices "openai" "gpt-4o" 1 1 refl
