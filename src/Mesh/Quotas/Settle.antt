-- ===== src/Mesh/Quotas/Settle.antt =====
-- Settling a hold never raises a window: what the ledger gains, the holds lose.
use osaip.Base.{
  ℕ, ◌+◌, ◌≤◌, ◌≡◌, true, false, Option, some, List, [], ◌∷◌, Any, ◌++◌, sum_where,
  sum_where-append, if◌then◌else◌, arith, Bool-cases, inl, inr,
}
use osaip.Mesh.Models.{Db, LlmCall, QuotaReservation}
use osaip.Mesh.Quotas.{
  Scope, Reservation, holds, counts_call, mem_id, settle_row, settle_rows, settle, window_usage,
}

-- Some open hold of the scope, of at least the cost, is among the settled ids.
abbrev pub HoldsFor : Scope → ℕ → ℕ → ℕ → List ℕ → List QuotaReservation → Type 0
HoldsFor s since now cost ids rs =
    Any (λ r. (holds s since now r ≡ true) × (mem_id r.id ids ≡ true) × (cost ≤ r.estimated_micros))
      rs

module _ (s : Scope) (since now : ℕ) (ids : List ℕ) (actual : ℕ) (call_id : Option ℕ) where
  -- A settled hold is no longer counted.
  holds-settled :
      (r : QuotaReservation)
      → holds s since now (record r { settled_micros = some actual; call_id = call_id }) ≡ false
  holds-settled r = ground arith

  module _ (value : QuotaReservation → ℕ) where
    abbrev counted : QuotaReservation → ℕ
    counted r = if holds s since now r then value r else 0

    counted-settled :
        (r : QuotaReservation)
        → mem_id r.id ids ≡ true
        → counted (settle_row ids actual call_id r) ≡ 0
    unfolding settle_row
    counted-settled r settled = rw (settled, holds-settled r)

    counted-settle_row :
        (r : QuotaReservation) → counted (settle_row ids actual call_id r) ≤ counted r
    counted-settle_row r = elim (Bool-cases (mem_id r.id ids)) [
      | inl settled ↦ rw (counted-settled r settled) (omega arith)
      | inr other ↦ unfold settle_row in rw other (omega arith)
    ]

    abbrev total : List QuotaReservation → ℕ
    total = sum_where (holds s since now) value

    total-settle_rows :
        (rs : List QuotaReservation) → total (settle_rows ids actual call_id rs) ≤ total rs
    unfolding settle_rows
    total-settle_rows [] = omega arith
    total-settle_rows (r ∷ rs) = omega (arith, counted-settle_row r, total-settle_rows rs)

    -- The hold that is settled is taken off the sum.
    total-settle_rows_lt :
        (cost : ℕ) (rs : List QuotaReservation)
        → Any (λ r. (holds s since now r ≡ true) × (mem_id r.id ids ≡ true) × (cost ≤ value r)) rs
        → total (settle_rows ids actual call_id rs) + cost ≤ total rs
    unfolding settle_rows
    total-settle_rows_lt cost [] h = absurd h
    total-settle_rows_lt cost (r ∷ rs) (inl (held, settled, le)) =
        let full : counted r ≡ value r = rw held in
        omega (arith, counted-settled r settled, full, total-settle_rows rs)
    total-settle_rows_lt cost (r ∷ rs) (inr later) =
        omega (arith, counted-settle_row r, total-settle_rows_lt cost rs later)

-- The ledger row of a call is added and its hold is settled to its cost, in one transaction.
abbrev pub settle_call : Reservation → LlmCall → Db → Db
settle_call reservation call db =
    settle reservation call.cost_micros (some call.id) (record db { calls = db.calls ++ call ∷ [] })

HoldsFor-ids :
    (s : Scope) (since now cost : ℕ) (rs : List QuotaReservation)
    → ¬ HoldsFor s since now cost [] rs
HoldsFor-ids s since now cost [] h = h
HoldsFor-ids s since now cost (r ∷ rs) (inl h) = cc (h.1)
HoldsFor-ids s since now cost (r ∷ rs) (inr h) = HoldsFor-ids s since now cost rs h

HoldsFor-one :
    (s : Scope) (since now cost : ℕ) (ids : List ℕ) (rs : List QuotaReservation)
    → HoldsFor s since now cost ids rs
    → Any (λ r. (holds s since now r ≡ true) × (mem_id r.id ids ≡ true) × (1 ≤ 1)) rs
HoldsFor-one s since now cost ids [] h = h
HoldsFor-one s since now cost ids (r ∷ rs) (inl h) = inl (h.0, h.1, omega arith)
HoldsFor-one s since now cost ids (r ∷ rs) (inr h) = inr (HoldsFor-one s since now cost ids rs h)

one_call_le :
    (s : Scope) (since : ℕ) (call : LlmCall) (n : ℕ)
    → (if counts_call s since call then n else 0) ≤ n
one_call_le s since call n = ground arith

-- The window of a scope does not grow, in cost or in calls, when a call that was held at its cost
-- or more is written to the ledger and settled; the hold is open, not abandoned, and of this window.
pub window_usage-settle_call :
    (db : Db) (s : Scope) (since now : ℕ) (reservation : Reservation) (call : LlmCall)
    → HoldsFor s since now call.cost_micros reservation.ids db.reservations
    → let after = settle_call reservation call db in
      ((window_usage after s since now).0 ≤ (window_usage db s since now).0)
      × ((window_usage after s since now).1 ≤ (window_usage db s since now).1)
unfolding window_usage settle
window_usage-settle_call db s since now reservation call held = by_ids reservation.ids held
  where
    by_ids :
        (ids : List ℕ)
        → HoldsFor s since now call.cost_micros ids db.reservations
        → let after =
            settle
              (record { ids = ids; warnings = reservation.warnings })
              call.cost_micros
              (some call.id)
              (record db { calls = db.calls ++ call ∷ [] }) in
          ((window_usage after s since now).0 ≤ (window_usage db s since now).0)
          × ((window_usage after s since now).1 ≤ (window_usage db s since now).1)
    by_ids [] h = absurd (HoldsFor-ids s since now call.cost_micros db.reservations h)
    by_ids (i ∷ ids) h = (
      omega (
        arith,
        sum_where-append (counts_call s since) (λ c. c.cost_micros) db.calls (call ∷ []),
        total-settle_rows_lt s since now (i ∷ ids) call.cost_micros (some call.id)
            (λ r. r.estimated_micros) call.cost_micros db.reservations h,
        one_call_le s since call call.cost_micros,
      ),
      omega (
        arith,
        sum_where-append (counts_call s since) (λ c. 1) db.calls (call ∷ []),
        total-settle_rows_lt s since now (i ∷ ids) call.cost_micros (some call.id) (λ r. 1) 1
            db.reservations (HoldsFor-one s since now call.cost_micros (i ∷ ids) db.reservations h),
        one_call_le s since call 1,
      ),
    )
