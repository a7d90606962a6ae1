-- ===== src/Mesh/Quotas/Reserve.antt =====
-- What a granted reservation leaves: every budget that refuses is within its limits.
use mathlib.Core.Path.{subst}
use osaip.Base.{
  ℕ, ◌+◌, ◌≤◌, ◌≡◌, refl, ap, ◌∙◌, true, false, none, List, [], ◌∷◌, ◌++◌, All, Any,
  sum_where-append, keep, All-keep, Bool-cases, inl, inr, arith,
}
use osaip.Mesh.Models.{QuotaAction, Db, Quota, Session}
use osaip.Mesh.Quotas.{
  Scope, QuotaStatus, Reservation, Calendar, Checked, within, exceeded, ◌>>=◌, holds, holds_from,
  over, sort_scopes, exceeded_dimension, window_start, window_usage, budget_of, judge, add_pending,
  status_of, check_quotas, check_scopes, place, reserve_ordered, reserve,
}
use osaip.Mesh.Quotas.Usage.{
  same_scope, count_scope, same_scope→eq, count_scope-sort, holds_from-le, over_mono,
}

within-injective : {A : Type 0} {a b : A} → within a ≡ within b → a ≡ b
within-injective e = cc

>>=-within :
    {A B : Type 0} (m : Checked A) (f : A → Checked B) {b : B}
    → (m >>= f) ≡ within b
    → (a : A) × (m ≡ within a) × (f a ≡ within b)
>>=-within (within a) f h = (a, refl, h)
>>=-within (exceeded status) f h = cc

count_scope-add_pending :
    (s : Scope) (qs : List Quota) (t : Scope) (ps : List Scope)
    → count_scope s (add_pending qs t ps) ≤ count_scope s (t ∷ ps)
unfolding add_pending
count_scope-add_pending s [] t ps = omega arith
count_scope-add_pending s (q ∷ qs) t ps = omega arith

-- A budget that refuses is not exceeded.
abbrev pub IsRoom : QuotaStatus → Type 0
IsRoom status = status.action ≡ QuotaAction.block → exceeded_dimension status ≡ none

judge-IsRoom :
    (status : QuotaStatus) (w : List QuotaStatus) {w' : List QuotaStatus}
    → judge status w ≡ within w'
    → IsRoom status
unfolding judge
judge-IsRoom status w e = ground arith

module _ (calendar : Calendar) (db : Db) (now estimated : ℕ) where
  abbrev pub HasRoom : Scope → Quota → Type 0
  HasRoom s q = IsRoom (status_of calendar db now estimated s q)

  check_quotas-HasRoom :
      (s : Scope) (qs : List Quota) (w : List QuotaStatus) {w' : List QuotaStatus}
      → check_quotas calendar db now estimated s qs w ≡ within w'
      → All (HasRoom s) qs
  unfolding check_quotas
  check_quotas-HasRoom s [] w e = tt
  check_quotas-HasRoom s (q ∷ qs) w e =
      let status = status_of calendar db now estimated s q in
      let (w', first, rest) =
        >>=-within (judge status w) (check_quotas calendar db now estimated s qs) e in
      (judge-IsRoom status w first, check_quotas-HasRoom s qs w' rest)

  -- The scopes that get a hold are among the given ones, and every budget of a given scope that
  -- refuses has room.
  pub check_scopes-HasRoom :
      (s : Scope) (ss : List Scope) (w : List QuotaStatus) {r : List QuotaStatus × List Scope}
      → check_scopes calendar db now estimated ss w ≡ within r
      → (count_scope s r.1 ≤ count_scope s ss)
        × (1 ≤ count_scope s ss → All (HasRoom s) (keep (budget_of s) db.quotas))
  unfolding check_scopes
  check_scopes-HasRoom s [] w e =
      (rw (← within-injective e) (omega arith), λ h. absurd (omega arith))
  check_scopes-HasRoom s (t ∷ ts) w e =
      let budgets = keep (budget_of t) db.quotas in
      let (w1, first, e1) = >>=-within (check_quotas calendar db now estimated t budgets w) _ e in
      let (rest, later, e2) = >>=-within (check_scopes calendar db now estimated ts w1) _ e1 in
      let (fewer, room) = check_scopes-HasRoom s ts w1 later in
      (
        rw (← within-injective e2) (omega (arith, count_scope-add_pending s budgets t rest.1)),
        λ listed. elim (Bool-cases (same_scope s t)) [
          | inl same ↦
              subst (λ u. All (HasRoom u) (keep (budget_of u) db.quotas)) (same_scope→eq s t same)
                (check_quotas-HasRoom t budgets w first)
          | inr other ↦ room (ground arith)
        ],
      )

-- The new holds raise the window of a scope that is pending at most once by one call at most.
pub window_usage-holds :
    (db : Db) (sc : Scope) (since now estimated id : ℕ) (ps : List Scope)
    → count_scope sc ps ≤ 1
    → let after = record db { reservations = db.reservations ++ holds_from id now estimated ps } in
      ((window_usage after sc since now).0 ≤ (window_usage db sc since now).0 + estimated)
      × ((window_usage after sc since now).1 ≤ (window_usage db sc since now).1 + 1)
unfolding window_usage
window_usage-holds db sc since now estimated id ps h =
    let new = holds_from id now estimated ps in
    let test = holds sc since now in
    (
      omega (
        arith,
        sum_where-append test (λ r. r.estimated_micros) db.reservations new,
        holds_from-le sc since now estimated (λ r. r.estimated_micros) estimated id ps
            (λ r e. omega arith) h,
      ),
      omega (
        arith,
        sum_where-append test (λ r. 1) db.reservations new,
        holds_from-le sc since now estimated (λ r. 1) 1 id ps (λ r e. omega arith) h,
      ),
    )

-- The limits of a budget hold of a usage.
abbrev pub WithinLimits : Quota → ℕ × ℕ → Type 0
WithinLimits q usage =
    (over usage.0 q.limit_cost_micros ≡ false) × (over usage.1 q.limit_calls ≡ false)

within_of_room :
    (status : QuotaStatus)
    → exceeded_dimension status ≡ none
    → (over status.spent_micros status.limit_cost_micros ≡ false)
      × (over status.calls status.limit_calls ≡ false)
unfolding exceeded_dimension
within_of_room status h = ground arith

-- A budget that refuses, and has room, has it for this call too.
room-limits :
    (calendar : Calendar) (db : Db) (now estimated : ℕ) (s : Scope) (q : Quota)
    → HasRoom calendar db now estimated s q
    → q.action ≡ QuotaAction.block
    → let usage = window_usage db s (window_start calendar q.period now) now in
      WithinLimits q (usage.0 + estimated, usage.1 + 1)
unfolding status_of
room-limits calendar db now estimated s q room blocks =
    within_of_room (status_of calendar db now estimated s q) (room blocks)

module _ (calendar : Calendar) (now estimated : ℕ) (s : Session) (sc : Scope) (q : Quota) where
  place-WithinLimits :
      (ss : List Scope) (c : Checked (List QuotaStatus × List Scope)) {res : Reservation}
      {s' : Session}
      → check_scopes calendar s.current now estimated ss [] ≡ c
      → place now estimated s c ≡ (within res, s')
      → count_scope sc ss ≡ 1
      → Any (λ q'. q' ≡ q) s.current.quotas
      → budget_of sc q ≡ true
      → q.action ≡ QuotaAction.block
      → WithinLimits q (window_usage s'.committed sc (window_start calendar q.period now) now)
  unfolding place
  place-WithinLimits ss (exceeded status) checked placed listed is_quota budget blocks = cc
  place-WithinLimits ss (within (w, pending)) {s' = s'} checked placed listed is_quota budget
        blocks =
      let (fewer, room) = check_scopes-HasRoom calendar s.current now estimated sc ss [] checked in
      let has_room =
        All-keep (HasRoom calendar s.current now estimated sc) (budget_of sc) s.current.quotas
          (room (omega arith)) is_quota budget in
      let (cost, calls) = room-limits calendar s.current now estimated sc q has_room blocks in
      let since = window_start calendar q.period now in
      let (cost_le, calls_le) =
        window_usage-holds s.current sc since now estimated s.next_id pending (omega arith) in
      subst (λ (t : Session). WithinLimits q (window_usage t.committed sc since now))
        (ap (λ p. p.1) placed)
        (over_mono _ _ q.limit_cost_micros cost_le cost, over_mono _ _ q.limit_calls calls_le calls)

  reserve_ordered-WithinLimits :
      (ss : List Scope) {res : Reservation} {s' : Session}
      → reserve_ordered calendar now estimated ss s ≡ (within res, s')
      → count_scope sc ss ≡ 1
      → Any (λ q'. q' ≡ q) s.current.quotas
      → budget_of sc q ≡ true
      → q.action ≡ QuotaAction.block
      → WithinLimits q (window_usage s'.committed sc (window_start calendar q.period now) now)
  unfolding reserve_ordered
  reserve_ordered-WithinLimits [] granted listed = absurd (omega arith)
  reserve_ordered-WithinLimits (t ∷ ts) granted listed =
      place-WithinLimits (t ∷ ts) (check_scopes calendar s.current now estimated (t ∷ ts) []) refl
        granted listed

  -- After a reservation that is granted, every budget that refuses, of every scope that the call
  -- lists once, holds in the committed data with this call's hold counted: no matter how much
  -- was spent and held before, the window is within the limit on cost and on calls.
  pub reserve-WithinLimits :
      (scopes : List Scope) {res : Reservation} {s' : Session}
      → reserve calendar now estimated scopes s ≡ (within res, s')
      → count_scope sc scopes ≡ 1
      → Any (λ q'. q' ≡ q) s.current.quotas
      → budget_of sc q ≡ true
      → q.action ≡ QuotaAction.block
      → WithinLimits q (window_usage s'.committed sc (window_start calendar q.period now) now)
  unfolding reserve
  reserve-WithinLimits scopes granted listed =
      reserve_ordered-WithinLimits (sort_scopes scopes) granted
        (count_scope-sort sc scopes ∙ listed)
