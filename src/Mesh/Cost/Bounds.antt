-- ===== src/Mesh/Cost/Bounds.antt =====
-- The rounding of a cost, and its order.
use osaip.Base.{ℕ, ◌+◌, ◌*◌, ◌≤◌, ◌<◌, String, ◌≡◌, Option, none, some, arith}
use osaip.Mesh.Cost.{Price, PriceTable, price_key, get, round_half_up, cost_of, compute_cost}

mul_mono : (a b c : ℕ) → a ≤ b → a * c ≤ b * c
mul_mono a b c h = grind arith

cost_of_mono :
    (currency : String) (entry : Option Price) (i i' o o' : ℕ)
    → i ≤ i'
    → o ≤ o'
    → (cost_of currency entry i o).cost_micros ≤ (cost_of currency entry i' o').cost_micros
unfolding cost_of round_half_up
cost_of_mono currency none i i' o o' hi ho = omega arith
cost_of_mono currency (some e) i i' o o' hi ho =
    let ins = mul_mono i i' e.in_per_mtok_micros hi in
    let outs = mul_mono o o' e.out_per_mtok_micros ho in omega arith

-- A call with no more tokens in and no more tokens out, of one model, never costs more.
pub compute_cost_mono :
    (table : PriceTable) (provider model : String) (i i' o o' : ℕ)
    → i ≤ i'
    → o ≤ o'
    → (compute_cost table provider model i o).cost_micros
      ≤ (compute_cost table provider model i' o').cost_micros
unfolding compute_cost
compute_cost_mono table provider model i i' o o' hi ho =
    cost_of_mono table.currency (get (price_key provider model) table.prices) i i' o o' hi ho

-- For a model with a known price the cost is the exact total rounded half up: a millionth of the
-- total lies within half a micro of it, and a half goes up.
pub compute_cost-rounds :
    (table : PriceTable) (provider model : String) (i o : ℕ) {entry : Price}
    → get (price_key provider model) table.prices ≡ some entry
    → let total = i * entry.in_per_mtok_micros + o * entry.out_per_mtok_micros in
      let cost = (compute_cost table provider model i o).cost_micros in
      (total < cost * 1000000 + 500000) × (cost * 1000000 ≤ total + 500000)
unfolding compute_cost
compute_cost-rounds table provider model i o e =
    rw e (unfold round_half_up in (omega arith, omega arith))
