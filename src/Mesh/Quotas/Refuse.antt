-- ===== src/Mesh/Quotas/Refuse.antt =====
-- When a reservation is refused.
use osaip.Base.{ℕ, ◌≡◌, ◌≢◌, ◌⊎◌, refl, none, List, [], ◌∷◌, keep, inl, inr, arith}
use osaip.Mesh.Models.{QuotaAction, Db, Quota, Session}
use osaip.Mesh.Quotas.{
  Scope, QuotaStatus, Calendar, Checked, within, exceeded, ◌>>=◌, sort_scopes, exceeded_dimension,
  budget_of, judge, status_of, check_quotas, check_scopes, place, reserve_ordered, reserve,
}

-- A budget that refuses, and is exceeded.
abbrev IsRefusal : QuotaStatus → Type 0
IsRefusal status = (status.action ≡ QuotaAction.block) × (exceeded_dimension status ≢ none)

>>=-exceeded :
    {A B : Type 0} (m : Checked A) (f : A → Checked B) {x : QuotaStatus}
    → (m >>= f) ≡ exceeded x
    → (m ≡ exceeded x) ⊎ ((a : A) × (m ≡ within a) × (f a ≡ exceeded x))
>>=-exceeded (within a) f h = inr (a, refl, h)
>>=-exceeded (exceeded status) f h = inl (cc)

judge-IsRefusal :
    (status : QuotaStatus) (w : List QuotaStatus) {x : QuotaStatus}
    → judge status w ≡ exceeded x
    → IsRefusal x
unfolding judge
judge-IsRefusal status w e = (ground arith, λ n. ground arith)

module _ (calendar : Calendar) (db : Db) (now estimated : ℕ) where
  check_quotas-IsRefusal :
      (s : Scope) (qs : List Quota) (w : List QuotaStatus) {x : QuotaStatus}
      → check_quotas calendar db now estimated s qs w ≡ exceeded x
      → IsRefusal x
  unfolding check_quotas
  check_quotas-IsRefusal s [] w e = cc
  check_quotas-IsRefusal s (q ∷ qs) w e =
      elim (>>=-exceeded (judge (status_of calendar db now estimated s q) w)
        (check_quotas calendar db now estimated s qs) e) [
          | inl here ↦ judge-IsRefusal (status_of calendar db now estimated s q) w here
          | inr (w', first, later) ↦ check_quotas-IsRefusal s qs w' later
        ]

  check_scopes-IsRefusal :
      (ss : List Scope) (w : List QuotaStatus) {x : QuotaStatus}
      → check_scopes calendar db now estimated ss w ≡ exceeded x
      → IsRefusal x
  unfolding check_scopes
  check_scopes-IsRefusal [] w e = cc
  check_scopes-IsRefusal (s ∷ ss) w e =
      elim (>>=-exceeded (check_quotas calendar db now estimated s (keep (budget_of s) db.quotas) w)
        _ e) [
          | inl here ↦ check_quotas-IsRefusal s (keep (budget_of s) db.quotas) w here
          | inr (w', first, rest) ↦
              elim (>>=-exceeded (check_scopes calendar db now estimated ss w') _ rest) [
                | inl there ↦ check_scopes-IsRefusal ss w' there
                | inr (r, passed, last) ↦ cc
              ]
        ]

place-IsRefusal :
    (now estimated : ℕ) (s : Session) (c : Checked (List QuotaStatus × List Scope))
    {status : QuotaStatus} {s' : Session}
    → place now estimated s c ≡ (exceeded status, s')
    → (s'.committed ≡ s.committed) × (s'.current ≡ s.committed) × (c ≡ exceeded status)
unfolding place
place-IsRefusal now estimated s (exceeded status) e = (cc, cc, cc)
place-IsRefusal now estimated s (within r) e = cc

reserve_ordered-exceeded :
    (calendar : Calendar) (now estimated : ℕ) (ss : List Scope) (s : Session) {status : QuotaStatus}
    {s' : Session}
    → reserve_ordered calendar now estimated ss s ≡ (exceeded status, s')
    → (s'.committed ≡ s.committed)
      × (s'.current ≡ s.committed)
      × (status.action ≡ QuotaAction.block)
      × (exceeded_dimension status ≢ none)
unfolding reserve_ordered
reserve_ordered-exceeded calendar now estimated [] s e = cc
reserve_ordered-exceeded calendar now estimated (t ∷ ts) s e =
    let (kept, undone, refused) = place-IsRefusal now estimated s _ e in
    let (blocks, over) =
      check_scopes-IsRefusal calendar s.current now estimated (t ∷ ts) [] refused in
    (kept, undone, blocks, over)

-- A reservation that is refused leaves the committed data as it was, and no write behind; the
-- status that it reports is of a budget that refuses and that is exceeded.
pub reserve-exceeded :
    (calendar : Calendar) (now estimated : ℕ) (scopes : List Scope) (s : Session)
    {status : QuotaStatus} {s' : Session}
    → reserve calendar now estimated scopes s ≡ (exceeded status, s')
    → (s'.committed ≡ s.committed)
      × (s'.current ≡ s.committed)
      × (status.action ≡ QuotaAction.block)
      × (exceeded_dimension status ≢ none)
unfolding reserve
reserve-exceeded calendar now estimated scopes s e =
    reserve_ordered-exceeded calendar now estimated (sort_scopes scopes) s e
