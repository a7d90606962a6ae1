-- ===== src/Mesh/Quotas/Closed.antt =====
-- After `settle` no row of the reservation is open, and the ledger is as before.
use osaip.Base.{ℕ, ◌≡◌, refl, Bool, false, Option, List, [], ◌∷◌, arith, All, ◌&&◌}
use osaip.Mesh.Models.{Db, QuotaReservation}
use osaip.Mesh.Quotas.{Reservation, QuotaStatus, settle, settle_rows, settle_row, mem_id, is_none}

-- A row of the reservation that is still open.
unfoldable pub is_open : List ℕ → QuotaReservation → Bool
is_open ids r = mem_id r.id ids && is_none r.settled_micros

abbrev pub AllClosed : List ℕ → Db → Type 0
AllClosed ids db = All (λ r. is_open ids r ≡ false) db.reservations

settle_rows-closed :
    (ids : List ℕ) (actual : ℕ) (id : Option ℕ) (rs : List QuotaReservation)
    → All (λ r. is_open ids r ≡ false) (settle_rows ids actual id rs)
unfolding is_open settle_rows settle_row
settle_rows-closed ids actual id [] = tt
settle_rows-closed ids actual id (r ∷ rs) = (ground arith, settle_rows-closed ids actual id rs)

none-closed : (rs : List QuotaReservation) → All (λ r. is_open [] r ≡ false) rs
unfolding is_open
none-closed [] = tt
none-closed (r ∷ rs) = (refl, none-closed rs)

module _ (actual : ℕ) (id : Option ℕ) (db : Db) where
  ids-AllClosed :
      (ids : List ℕ) (warnings : List QuotaStatus)
      → AllClosed ids (settle (record { ids = ids; warnings = warnings }) actual id db)
  unfolding settle
  ids-AllClosed [] warnings = none-closed db.reservations
  ids-AllClosed (i ∷ is) warnings = settle_rows-closed (i ∷ is) actual id db.reservations

  ids-calls :
      (ids : List ℕ) (warnings : List QuotaStatus)
      → (settle (record { ids = ids; warnings = warnings }) actual id db).calls ≡ db.calls
  unfolding settle
  ids-calls [] warnings = refl
  ids-calls (i ∷ is) warnings = refl

  pub settle-AllClosed :
      (reservation : Reservation) → AllClosed reservation.ids (settle reservation actual id db)
  settle-AllClosed reservation = ids-AllClosed reservation.ids reservation.warnings

  pub settle-calls :
      (reservation : Reservation) → (settle reservation actual id db).calls ≡ db.calls
  settle-calls reservation = ids-calls reservation.ids reservation.warnings
