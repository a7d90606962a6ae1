-- ===== src/Mesh/Pipeline/Run/Tests.antt =====
-- A call with a BSN in its message, to a provider that answers, and to one that crashes.
use osaip.Base.{◌≡◌, refl, none, some, false, true, List, [], ◌∷◌, length, ◌⊎◌}
use osaip.Guardrails.Types.{Text, codes}
use osaip.Guardrails.Bsn.{is_valid_bsn}
use osaip.Guardrails.Detect.{detect_all}
use osaip.Guardrails.Redact.{redact}
use osaip.Guardrails.Json.{obj, end}
use osaip.Guardrails.Policy.{baseline, run_pre, run_pre_async, run_post, after_validation}
use osaip.Guardrails.Samples.{spans, with_bsn, with_other_bsn, twins}
use osaip.Mesh.Models.{ScopeType, QuotaReservation, Session, Db}
use osaip.Mesh.Cache.{is_cacheable}
use osaip.Mesh.Cost.{model_prices}
use osaip.Mesh.Quotas.{Reservation, within}
use osaip.Mesh.Request.{Message, CompletionRequest, ConnectionInfo, CallContext}
use osaip.Mesh.Stages.{err, residency_blocked, validator_raised, answer_of, run_post_stage}
use osaip.Guardrails.Sovereignty.{check_residency, is_allowed}
use osaip.Mesh.Pipeline.{enforce_connection_scope, ProviderReply, completed, crashed, adapter, Env}
use osaip.Mesh.Pipeline.Run.{Call, redacted_call, after_reserve, run_pipeline}
use osaip.Mesh.Pipeline.Run.Ledgered.{IsLedgered, Escapes, after_reserve-Ends}
use osaip.Mesh.Pipeline.Run.Gate.{run_pipeline-residency}
use osaip.Mesh.Pipeline.Run.Privacy.{TwinMessages, run_pipeline-TwinMessages}

abbrev answers : CompletionRequest → ProviderReply
answers request = completed (record {
  content = codes "fine";
  tokens_in = 3;
  tokens_out = 1;
  model_version = none;
  tokens_estimated = false;
})

abbrev crashes : CompletionRequest → ProviderReply
crashes request = crashed

abbrev env : Env
env = record {
  re = spans;
  analyze = λ text. [];
  validate = λ text schema. some [];
  prices = model_prices;
  encoder = none;
  calendar = record { day_start = λ now. 0; month_start = λ now. 0 };
  hash = λ payload. "hash";
  make_provider = adapter answers;
  started_at = 10;
  reserved_at = 11;
  looked_up_at = 12;
  settled_at = 13;
  latency_ms = 3;
}

abbrev connection : ConnectionInfo
connection = record {
  id = some 5;
  provider = "echo";
  cache_ttl_s = 0;
  audit_mode = "redacted";
  data_residency = "local";
  name = some "test";
  policy = baseline;
  scope = "global";
  owner_project_id = none;
}

abbrev context : CallContext
context = record {
  project_id = some 1;
  user_id = some 2;
  purpose = "general";
  max_classification = "bsn";
  trace_id = none;
  job_id = none;
  job_step_id = none;
  row_key = none;
}

abbrev said : Text → List Message
said text = record { role = "user"; content = text } ∷ []

abbrev request : CompletionRequest
request = record {
  model = "echo-1";
  messages = said with_bsn;
  max_tokens = 16;
  temperature = record { is_zero = true; four_digits = "0.0000" };
}

abbrev held : QuotaReservation
held = record {
  id = 7;
  scope_type = ScopeType.project;
  scope_id = 1;
  ts = 11;
  estimated_micros = 600;
  settled_micros = none;
  call_id = none;
}

abbrev session : Session
session = record { committed = db; current = db; next_id = 100 }
  where
    db : Db
    db = record {
      quotas = [];
      reservations = held ∷ [];
      calls = [];
      messages = [];
      cache = [];
      events = [];
      traces = [];
      spans = [];
      notifications = [];
      audit = [];
    }

twin_messages : TwinMessages spans env.analyze baseline (said with_bsn) (said with_other_bsn)
unfolding TwinMessages run_pre_async run_pre redact detect_all is_valid_bsn
twin_messages = (refl, (twins, (refl, tt)))

run_pipeline-TwinMessages_example :
    run_pipeline env connection context request session
    ≡ run_pipeline env connection context
        (record request { messages = said with_other_bsn })
        session
run_pipeline-TwinMessages_example =
    run_pipeline-TwinMessages env connection context request (said with_other_bsn) session refl
      twin_messages

abbrev call : Call
call = redacted_call env connection context request (said (codes "bsn <BSN>.."))

abbrev reservation : Reservation
reservation = record { ids = 7 ∷ []; warnings = [] }

after_reserve-Ends_example :
    IsLedgered
      (7 ∷ [])
      session.committed
      (after_reserve call crashes [] (within reservation, session)).1
    ⊎ Escapes call session.committed (after_reserve call crashes [] (within reservation, session))
after_reserve-Ends_example = after_reserve-Ends call reservation crashes [] session

-- A validator that raises: the provider has answered, and the hold of before stays open.
abbrev raising : Call
raising = record call {
  env = record env { validate = λ text schema. none };
  connection = record connection { policy = record baseline { output_schema = some (obj end) } };
}

raising_leaves_hold :
    let after = after_reserve raising answers [] (within reservation, session) in
    (after.0 ≡ err validator_raised)
    × (after.1.committed.calls ≡ [])
    × (after.1.committed.reservations ≡ held ∷ [])
unfolding after_reserve run_post after_validation answer_of run_post_stage is_cacheable
raising_leaves_hold = (refl, refl, refl)

abbrev forbidden : ConnectionInfo
forbidden = record connection { data_residency = "external" }

run_pipeline-residency_example :
    let after = run_pipeline env forbidden context request session in
    (after.0 ≡ err residency_blocked)
    × (after.1.committed.calls ≡ [])
    × (after.1.committed.reservations ≡ held ∷ [])
    × (after.1.committed.messages ≡ [])
    × (length after.1.committed.audit ≡ 1)
unfolding check_residency is_allowed enforce_connection_scope
run_pipeline-residency_example =
    run_pipeline-residency env forbidden context request session refl refl
