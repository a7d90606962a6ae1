-- ===== src/Mesh/Quotas.antt =====
-- apps/mesh/osaip_mesh/quotas.py. The calendar (`datetime.replace`) is a parameter.
pub mod Usage
pub mod Reserve
pub mod Refuse
pub mod Settle
pub mod Closed
pub mod Reads
mod Tests
use osaip.Base.{
  ℕ, zero, ◌+◌, ◌-◌, String, Bool, true, false, not, ◌&&◌, ◌||◌, Option, none, some, List, [], ◌∷◌,
  ◌++◌, ltb, leb, ◌==◌, sum_where, keep, any_of, if◌then◌else◌,
}
use osaip.Mesh.Models.{
  ScopeType, Period, QuotaAction, Quota, QuotaReservation, LlmCall, Db, Session, commit, rollback,
}

pub record Scope : Type 0 where
  pub scope_type : ScopeType
  pub scope_id : ℕ

pub record QuotaStatus : Type 0 where
  pub scope_type : ScopeType
  pub scope_id : ℕ
  pub period : Period
  pub action : QuotaAction
  pub window_start : ℕ
  pub spent_micros : ℕ
  pub calls : ℕ
  pub limit_cost_micros : Option ℕ
  pub limit_calls : Option ℕ
  pub reserved_micros : ℕ

-- `limit is not None and value > limit`
abbrev pub over : ℕ → Option ℕ → Bool
over value none = false
over value (some limit) = ltb limit value

unfoldable pub exceeded_dimension : QuotaStatus → Option String
exceeded_dimension s =
    if over s.spent_micros s.limit_cost_micros
    then some "cost"
    else if over s.calls s.limit_calls
    then some "calls"
    else none

-- The window before this call was still within the limit; Python's `a - b <= c` as `a <= c + b`.
was_within : ℕ → ℕ → Option ℕ → Bool
was_within value added none = false
was_within value added (some limit) = leb value (limit + added)

unfoldable pub just_crossed : QuotaStatus → Bool
unfolding was_within
just_crossed s =
    if over s.spent_micros s.limit_cost_micros
    then was_within s.spent_micros s.reserved_micros s.limit_cost_micros
    else if over s.calls s.limit_calls
    then was_within s.calls 1 s.limit_calls
    else false

pub record Reservation : Type 0 where
  pub ids : List ℕ
  pub warnings : List QuotaStatus

-- `RESERVATION_TTL`, fifteen minutes.
abbrev pub reservation_ttl : ℕ
reservation_ttl = 900000000

-- The start of the day and of the month of a time.
pub record Calendar : Type 0 where
  pub day_start : ℕ → ℕ
  pub month_start : ℕ → ℕ

unfoldable pub window_start : Calendar → Period → ℕ → ℕ
window_start calendar Period.day now = calendar.day_start now
window_start calendar Period.month now = calendar.month_start now

abbrev pub same_type : ScopeType → ScopeType → Bool
same_type ScopeType.project ScopeType.project = true
same_type ScopeType.user ScopeType.user = true
same_type ScopeType.connection ScopeType.connection = true
same_type ScopeType.agent ScopeType.agent = true
same_type _ _ = false

abbrev pub same_id : Option ℕ → ℕ → Bool
same_id none id = false
same_id (some i) id = i == id

-- `_scope_filter`: the column that the type of a scope names, compared with its id.
abbrev pub scope_filter : Scope → LlmCall → Bool
scope_filter s c = elim s.scope_type [
  | ScopeType.project ↦ same_id c.project_id s.scope_id
  | ScopeType.user ↦ same_id c.user_id s.scope_id
  | ScopeType.connection ↦ same_id c.connection_id s.scope_id
  | ScopeType.agent ↦ same_id c.agent_id s.scope_id
]

abbrev pub is_none : Option ℕ → Bool
is_none none = true
is_none (some n) = false

-- The conditions of the two queries of `_window_usage`; `ts > now - TTL` is `now < ts + TTL`.
abbrev pub counts_call : Scope → ℕ → LlmCall → Bool
counts_call s since c = leb since c.ts && scope_filter s c

abbrev pub holds : Scope → ℕ → ℕ → QuotaReservation → Bool
holds s since now r =
    same_type r.scope_type s.scope_type
    && (r.scope_id == s.scope_id
        && (leb since r.ts && (ltb now (r.ts + reservation_ttl) && is_none r.settled_micros)))

-- `_window_usage` sums the ledger and then the open holds: two reads, each of what is committed when
-- it runs.
abbrev pub usage_read : Db → Db → Scope → ℕ → ℕ → ℕ × ℕ
usage_read first second s since now = (
  sum_where (counts_call s since) (λ c. c.cost_micros) first.calls
      + sum_where (holds s since now) (λ r. r.estimated_micros) second.reservations,
  sum_where (counts_call s since) (λ c. 1) first.calls
      + sum_where (holds s since now) (λ r. 1) second.reservations,
)

-- Where nothing is committed between them.
unfoldable pub window_usage : Db → Scope → ℕ → ℕ → ℕ × ℕ
window_usage db s since now = usage_read db db s since now

-- The status of one budget with this call added to its window.
pub status_of : Calendar → Db → ℕ → ℕ → Scope → Quota → QuotaStatus
unfolding window_usage window_start
status_of calendar db now estimated s q =
    let since = window_start calendar q.period now in
    let usage = window_usage db s since now in
    record {
      scope_type = s.scope_type;
      scope_id = s.scope_id;
      period = q.period;
      action = q.action;
      window_start = since;
      spent_micros = usage.0 + estimated;
      calls = usage.1 + 1;
      limit_cost_micros = q.limit_cost_micros;
      limit_calls = q.limit_calls;
      reserved_micros = estimated;
    }

-- A loop that may stop with `QuotaExceeded`.
pub data Checked (A : Type 0) : Type 0 where
  within : A → Checked A
  exceeded : QuotaStatus → Checked A

infixl 5 ◌>>=◌
abbrev pub ◌>>=◌ : {A B : Type 0} → Checked A → (A → Checked B) → Checked B
within a >>= f = f a
exceeded status >>= f = exceeded status

-- One budget: a blocking one that would be exceeded stops, a warning one is reported.
pub judge : QuotaStatus → List QuotaStatus → Checked (List QuotaStatus)
unfolding exceeded_dimension
judge status warnings = elim (exceeded_dimension status) [
  | none ↦ within warnings
  | some _ ↦ elim status.action [
    | QuotaAction.block ↦ exceeded status
    | QuotaAction.warn ↦ within (warnings ++ status ∷ [])
  ]
]

-- `for quota in scope_quotas`
pub check_quotas :
    Calendar → Db → ℕ → ℕ → Scope → List Quota → List QuotaStatus → Checked (List QuotaStatus)
unfolding judge status_of
check_quotas calendar db now estimated s [] warnings = within warnings
check_quotas calendar db now estimated s (q ∷ qs) warnings =
    judge (status_of calendar db now estimated s q) warnings
    >>= check_quotas calendar db now estimated s qs

-- `by_scope.get((scope.scope_type, scope.scope_id), [])`
abbrev pub budget_of : Scope → Quota → Bool
budget_of s q = same_type q.scope_type s.scope_type && q.scope_id == s.scope_id

-- `if not scope_quotas: continue`, else `pending.append(scope)`.
pub add_pending : List Quota → Scope → List Scope → List Scope
add_pending [] s pending = pending
add_pending (q ∷ qs) s pending = s ∷ pending

-- `for scope in ordered`, with the warnings so far; the result adds the scopes to hold.
pub check_scopes :
    Calendar → Db → ℕ → ℕ → List Scope → List QuotaStatus → Checked (List QuotaStatus × List Scope)
unfolding check_quotas add_pending
check_scopes calendar db now estimated [] warnings = within (warnings, [])
check_scopes calendar db now estimated (s ∷ ss) warnings = do
  let budgets = keep (budget_of s) db.quotas
  warnings' ← check_quotas calendar db now estimated s budgets warnings
  rest ← check_scopes calendar db now estimated ss warnings'
  within (rest.0, add_pending budgets s rest.1)

-- `(_SCOPE_ORDER.index(s.scope_type), str(s.scope_id))`
scope_rank : ScopeType → ℕ
scope_rank ScopeType.project = 0
scope_rank ScopeType.user = 1
scope_rank ScopeType.connection = 2
scope_rank ScopeType.agent = 3

scope_le : Scope → Scope → Bool
unfolding scope_rank
scope_le a b =
    ltb (scope_rank a.scope_type) (scope_rank b.scope_type)
    || (scope_rank a.scope_type == scope_rank b.scope_type && leb a.scope_id b.scope_id)

pub insert_scope : Scope → List Scope → List Scope
unfolding scope_le
insert_scope s [] = s ∷ []
insert_scope s (t ∷ ts) = if scope_le s t then s ∷ t ∷ ts else t ∷ insert_scope s ts

pub sort_scopes : List Scope → List Scope
unfolding insert_scope
sort_scopes [] = []
sort_scopes (s ∷ ss) = insert_scope s (sort_scopes ss)

pub hold_for : ℕ → ℕ → ℕ → Scope → QuotaReservation
hold_for id now estimated s = record {
  id = id;
  scope_type = s.scope_type;
  scope_id = s.scope_id;
  ts = now;
  estimated_micros = estimated;
  settled_micros = none;
  call_id = none;
}

-- `for scope in pending`: the rows to add, with fresh ids.
pub holds_from : ℕ → ℕ → ℕ → List Scope → List QuotaReservation
unfolding hold_for
holds_from id now estimated [] = []
holds_from id now estimated (s ∷ ss) =
    hold_for id now estimated s ∷ holds_from (id + 1) now estimated ss

ids_from : ℕ → List Scope → List ℕ
ids_from id [] = []
ids_from id (s ∷ ss) = id ∷ ids_from (id + 1) ss

next_after : ℕ → List Scope → ℕ
next_after id [] = id
next_after id (s ∷ ss) = next_after (id + 1) ss

-- The holds are added and committed, or the transaction is rolled back.
pub place :
    ℕ → ℕ → Session → Checked (List QuotaStatus × List Scope) → Checked Reservation × Session
unfolding holds_from ids_from next_after
place now estimated s (exceeded status) = (exceeded status, rollback s)
place now estimated s (within (warnings, pending)) = (
  within (record { ids = ids_from s.next_id pending; warnings = warnings }),
  commit (record s {
    current = record s.current {
      reservations = s.current.reservations ++ holds_from s.next_id now estimated pending;
    };
    next_id = next_after s.next_id pending;
  }),
)

pub reserve_ordered : Calendar → ℕ → ℕ → List Scope → Session → Checked Reservation × Session
unfolding check_scopes place
reserve_ordered calendar now estimated [] s = (within (record { ids = []; warnings = [] }), s)
reserve_ordered calendar now estimated (scope ∷ scopes) s =
    place now estimated s (check_scopes calendar s.current now estimated (scope ∷ scopes) [])

unfoldable pub reserve : Calendar → ℕ → ℕ → List Scope → Session → Checked Reservation × Session
unfolding reserve_ordered sort_scopes
reserve calendar now estimated scopes s =
    reserve_ordered calendar now estimated (sort_scopes scopes) s

-- `QuotaReservation.id.in_(reservation.ids)`
abbrev pub mem_id : ℕ → List ℕ → Bool
mem_id id ids = any_of (λ i. i == id) ids

settle_row : List ℕ → ℕ → Option ℕ → QuotaReservation → QuotaReservation
settle_row ids actual call_id r =
    if mem_id r.id ids then record r { settled_micros = some actual; call_id = call_id } else r

pub settle_rows : List ℕ → ℕ → Option ℕ → List QuotaReservation → List QuotaReservation
unfolding settle_row
settle_rows ids actual call_id [] = []
settle_rows ids actual call_id (r ∷ rs) =
    settle_row ids actual call_id r ∷ settle_rows ids actual call_id rs

-- Without ids the code does nothing, and so does the update.
unfoldable pub settle : Reservation → ℕ → Option ℕ → Db → Db
unfolding settle_rows
settle reservation actual call_id db = elim reservation.ids [
  | [] ↦ db
  | _ ∷ _ ↦ record db { reservations = settle_rows reservation.ids actual call_id db.reservations }
]
