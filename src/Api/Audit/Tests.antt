-- ===== src/Api/Audit/Tests.antt =====
-- A log of two rows, written by `write_audit`, with stand-ins for the formats.
use osaip.Base.{ℕ, ◌≡◌, refl, none, true, false, String, List, [], ◌∷◌, ◌++◌, ◌=s◌, if◌then◌else◌}
use osaip.Guardrails.Json.{Json, obj, str, float, field, end}
use osaip.Api.Audit.{
  Formats, Content, AuditLog, payload_of, canonical_row, genesis_hash, check_details, head_hash,
  row_hash, write_audit, verify_rows,
}
use osaip.Api.Audit.Chain.{verify_rows-write}

abbrev first_hash : String
first_hash = "a1a1a1a1a1a1a1a1a1a1a1a1a1a1a1a1a1a1a1a1a1a1a1a1a1a1a1a1a1a1a1a1"

abbrev later_hash : String
later_hash = "b2b2b2b2b2b2b2b2b2b2b2b2b2b2b2b2b2b2b2b2b2b2b2b2b2b2b2b2b2b2b2b2"

abbrev sha256 : String → String
sha256 s =
    if s =s "0000000000000000000000000000000000000000000000000000000000000000a"
    then first_hash
    else later_hash

abbrev action_text : Json → String
action_text (obj (field key (str action) fields)) = action
action_text v = "null"

abbrev formats : Formats
formats = record {
  uuid_text = λ id. "1";
  time_text = λ time. "2026-01-01T00:00:00.000000+00:00";
  dumps = action_text;
  sha256 = sha256;
}

abbrev said : String → Content
said action = record {
  id = 1;
  ts = 2;
  actor_id = none;
  project_id = none;
  action = action;
  object_kind = "project";
  object_id = none;
  details = end;
  ip = none;
}

-- The log, with the numbers that the table gives its rows.
abbrev log : ℕ → ℕ → List AuditLog
log first second =
    record { seq = first; content = said "a"; prev_hash = genesis_hash; row_hash = first_hash }
    ∷ record { seq = second; content = said "b"; prev_hash = first_hash; row_hash = later_hash }
    ∷ []

log_ok : (first second : ℕ) → (verify_rows formats genesis_hash 0 (log first second)).ok ≡ true
unfolding verify_rows row_hash canonical_row payload_of
log_ok first second = refl

write_audit-float :
    write_audit formats 3 (record (said "c") { details = field "x" (float false "0.5") end }) []
    ≡ none
unfolding write_audit check_details
write_audit-float = refl

abbrev with_c : List AuditLog
with_c =
    log_and (record { seq = 3; content = said "c"; prev_hash = later_hash; row_hash = later_hash })
  where
    log_and : AuditLog → List AuditLog
    log_and row = log 1 2 ++ row ∷ []

verify_rows-write_example :
    verify_rows formats genesis_hash 0 with_c
    ≡ record { ok = true; checked = 3; first_bad_seq = none; reason = none }
unfolding write_audit check_details head_hash row_hash canonical_row payload_of
verify_rows-write_example =
    verify_rows-write formats 3 (said "c") (log 1 2) {rows' = with_c} (log_ok 1 2) refl
