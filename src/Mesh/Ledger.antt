-- ===== src/Mesh/Ledger.antt =====
-- apps/mesh/osaip_mesh/ledger.py: the rows that the settle step writes.
pub mod Messages
mod Tests
use osaip.Base.{
  ℕ, zero, suc, ◌+◌, String, Bool, true, false, not, ◌&&◌, Option, none, some, List, [], ◌∷◌, ◌++◌,
  length, any_of, ◌==◌, ◌=s◌, if◌then◌else◌,
}
use osaip.Guardrails.Types.{Text}
use osaip.Mesh.Models.{Db, Session, LlmCall, LlmCallMessage, Trace, Span}
use osaip.Mesh.Request.{Message}

pub same_text : Text → Text → Bool
same_text [] [] = true
same_text (x ∷ xs) (y ∷ ys) = x == y && same_text xs ys
same_text _ _ = false

-- The original is worth a second copy only where redaction changed something.
raw_copy : Bool → List Message → Message → Option Text
unfolding same_text
raw_copy false raws message = none
raw_copy true [] message = none
raw_copy true (raw ∷ raws) message =
    if same_text raw.content message.content then none else some raw.content

rest_of : List Message → List Message
rest_of [] = []
rest_of (raw ∷ raws) = raws

-- The loop of `record_call` over the redacted messages, beside the raw ones.
message_rows : ℕ → ℕ → ℕ → Bool → List Message → List Message → List LlmCallMessage
unfolding raw_copy rest_of
message_rows id call_id seq keep_raw [] raws = []
message_rows id call_id seq keep_raw (message ∷ messages) raws =
    record {
      id = id;
      call_id = call_id;
      seq = seq;
      role = message.role;
      content_redacted = message.content;
      content_raw = raw_copy keep_raw raws message;
    }
    ∷ message_rows (id + 1) call_id (seq + 1) keep_raw messages (rest_of raws)

-- The rows that the audit mode asks for; without raw messages the list of them is empty.
unfoldable pub audited : ℕ → ℕ → String → List Message → List Message → List LlmCallMessage
unfolding message_rows
audited id call_id audit_mode messages_redacted messages_raw =
    if audit_mode =s "off"
    then []
    else message_rows id call_id 0 (audit_mode =s "full") messages_redacted messages_raw

-- The ledger row gets a fresh id, and then each message row.
unfoldable pub record_call :
    LlmCall → List Message → List Message → String → Session → LlmCall × Session
unfolding audited
record_call entry messages_redacted messages_raw audit_mode s =
    let call = record entry { id = s.next_id } in
    let rows = audited (s.next_id + 1) s.next_id audit_mode messages_redacted messages_raw in
    (
      call,
      record s {
        current = record s.current {
          calls = s.current.calls ++ call ∷ [];
          messages = s.current.messages ++ rows;
        };
        next_id = s.next_id + 1 + length rows;
      },
    )

-- `pg_insert(Trace).on_conflict_do_nothing`
insert_trace : ℕ → String → Option ℕ → List Trace → List Trace
insert_trace trace_id root_kind project_id traces =
    if any_of (λ (t : Trace). t.trace_id == trace_id) traces
    then traces
    else traces
      ++ record {
        trace_id = trace_id;
        root_kind = root_kind;
        project_id = project_id;
        span_count = 0;
        total_cost_micros = 0;
      }
        ∷ []

trace_or_new : Option ℕ → Session → ℕ × Session
trace_or_new none s = (s.next_id, record s { next_id = s.next_id + 1 })
trace_or_new (some trace_id) s = (trace_id, s)

unfoldable pub ensure_trace : Option ℕ → String → Option ℕ → Session → ℕ × Session
unfolding insert_trace trace_or_new
ensure_trace trace_id root_kind project_id s =
    let (id, s') = trace_or_new trace_id s in
    (
      id,
      record s' {
        current = record s'.current {
          traces = insert_trace id root_kind project_id s'.current.traces;
        };
      },
    )

-- The rollups of the trace, computed in the update.
roll_up : ℕ → ℕ → List Trace → List Trace
roll_up trace_id cost [] = []
roll_up trace_id cost (t ∷ ts) =
    let rest = roll_up trace_id cost ts in
    if t.trace_id == trace_id
    then record t { span_count = t.span_count + 1; total_cost_micros = t.total_cost_micros + cost }
      ∷ rest
    else t ∷ rest

-- `span` carries the columns that the caller gives; the id is fresh.
unfoldable pub record_span : Span → Session → Span × Session
unfolding roll_up
record_span span s =
    let row = record span { span_id = s.next_id } in
    (
      row,
      record s {
        current = record s.current {
          spans = s.current.spans ++ row ∷ [];
          traces = roll_up span.trace_id span.cost_micros s.current.traces;
        };
        next_id = s.next_id + 1;
      },
    )
