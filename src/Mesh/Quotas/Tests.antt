-- ===== src/Mesh/Quotas/Tests.antt =====
-- A project with a daily budget of 1000 that refuses.
use osaip.Base.{◌≡◌, ◌≢◌, ◌≤◌, refl, none, some, false, [], ◌∷◌, arith, inl}
use osaip.Mesh.Models.{
  ScopeType, Period, QuotaAction, Quota, QuotaReservation, LlmCall, Db, Session,
}
use osaip.Mesh.Quotas.{
  usage_read, settle, Scope, QuotaStatus, Reservation, Calendar, Checked, within,
  exceeded_dimension, window_start, window_usage, reserve,
}
use osaip.Mesh.Quotas.Reserve.{WithinLimits, reserve-WithinLimits}
use osaip.Mesh.Quotas.Refuse.{reserve-exceeded}
use osaip.Mesh.Quotas.Settle.{settle_call, window_usage-settle_call}

abbrev calendar : Calendar
calendar = record { day_start = λ now. 0; month_start = λ now. 0 }

abbrev project : Scope
project = record { scope_type = ScopeType.project; scope_id = 1 }

abbrev budget : Quota
budget = record {
  scope_type = ScopeType.project;
  scope_id = 1;
  period = Period.day;
  limit_cost_micros = some 1000;
  limit_calls = none;
  action = QuotaAction.block;
}

abbrev db : Db
db = record {
  quotas = budget ∷ [];
  reservations = [];
  calls = [];
  messages = [];
  cache = [];
  events = [];
  traces = [];
  spans = [];
  notifications = [];
  audit = [];
}

abbrev session : Session
session = record { committed = db; current = db; next_id = 7 }

abbrev granted : Checked Reservation × Session
granted = reserve calendar 100 600 (project ∷ []) session

granted-ids : granted.0 ≡ within (record { ids = 7 ∷ []; warnings = [] })
unfolding reserve exceeded_dimension window_usage window_start
granted-ids = refl

abbrev reservation : Reservation
reservation = record { ids = 7 ∷ []; warnings = [] }

abbrev call : LlmCall
call = record {
  id = 9;
  ts = 100;
  project_id = some 1;
  user_id = none;
  agent_id = none;
  trace_id = none;
  span_id = none;
  job_id = none;
  job_step_id = none;
  row_key = none;
  connection_id = none;
  provider = "echo";
  model = "echo-1";
  model_version = none;
  purpose = "general";
  tokens_in = 3;
  tokens_out = 2;
  tokens_estimated = false;
  cost_micros = 450;
  currency = "EUR";
  pricing_unknown = false;
  latency_ms = 1;
  cache_hit = false;
  status = "ok";
  guardrail_events = [];
  request_hash = none;
}

abbrev held : QuotaReservation
held = record {
  id = 7;
  scope_type = ScopeType.project;
  scope_id = 1;
  ts = 100;
  estimated_micros = 600;
  settled_micros = none;
  call_id = none;
}

abbrev held_db : Db
held_db = record db { reservations = held ∷ [] }

reserve-WithinLimits_example : WithinLimits budget (window_usage granted.1.committed project 0 100)
unfolding reserve exceeded_dimension window_usage window_start
reserve-WithinLimits_example =
    reserve-WithinLimits calendar 100 600 session project budget (project ∷ []) {res = reservation}
      {s' = granted.1} refl refl (inl refl) refl refl

abbrev refused : Checked Reservation × Session
refused = reserve calendar 100 1600 (project ∷ []) session

abbrev over_budget : QuotaStatus
over_budget = record {
  scope_type = ScopeType.project;
  scope_id = 1;
  period = Period.day;
  action = QuotaAction.block;
  window_start = 0;
  spent_micros = 1600;
  calls = 1;
  limit_cost_micros = some 1000;
  limit_calls = none;
  reserved_micros = 1600;
}

reserve-exceeded_example :
    (refused.1.committed ≡ db)
    × (refused.1.current ≡ db)
    × (over_budget.action ≡ QuotaAction.block)
    × (exceeded_dimension over_budget ≢ none)
unfolding reserve exceeded_dimension window_usage window_start
reserve-exceeded_example =
    reserve-exceeded calendar 100 1600 (project ∷ []) session {status = over_budget}
      {s' = refused.1} refl

window_usage-settle_call_example :
    let after = settle_call reservation call held_db in
    ((window_usage after project 0 100).0 ≤ (window_usage held_db project 0 100).0)
    × ((window_usage after project 0 100).1 ≤ (window_usage held_db project 0 100).1)
window_usage-settle_call_example =
    window_usage-settle_call held_db project 0 100 reservation call (inl (refl, refl, omega arith))

-- The call is settled between the two reads, and neither of them counts it.
unseen : usage_read held_db (settle_call reservation call held_db) project 0 100 ≡ (0, 0)
unfolding settle
unseen = refl
