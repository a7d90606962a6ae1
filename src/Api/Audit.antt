-- ===== src/Api/Audit.antt =====
-- apps/api/osaip_api/audit.py: the hash chain of the audit log. The table is the list of its rows in
-- the order of `seq`, and a dictionary the list of its fields in the order of their keys.
pub mod Chain
mod Tests
use Prim.Native.String.{◌++◌ as ◌+s◌}
use osaip.Base.{
  ℕ, ◌+◌, String, Bool, true, false, not, ◌&&◌, Option, none, some, List, [], ◌∷◌, ◌++◌, ◌=s◌,
  if◌then◌else◌,
}
use osaip.Guardrails.Json.{
  Json, Items, Fields, null, bool, int, float, str, arr, obj, nil, cons, end, field,
}

-- What the source uses of the standard library: the text of a UUID, `strftime` of a time, `json.dumps`
-- with the keys sorted, and the digits of SHA-256.
pub record Formats : Type 0 where
  pub uuid_text : ℕ → String
  pub time_text : ℕ → String
  pub dumps : Json → String
  pub sha256 : String → String

-- The columns that are hashed.
pub record Content : Type 0 where
  pub id : ℕ
  pub ts : ℕ
  pub actor_id : Option ℕ
  pub project_id : Option ℕ
  pub action : String
  pub object_kind : String
  pub object_id : Option String
  pub details : Fields
  pub ip : Option String

pub record AuditLog : Type 0 where
  pub seq : ℕ
  pub content : Content
  pub prev_hash : String
  pub row_hash : String

abbrev pub genesis_hash : String
genesis_hash = "0000000000000000000000000000000000000000000000000000000000000000"

-- `_check_details`: whether it raises nothing.
unfoldable mutual
  pub check_value : Json → Bool
  check_value null = true
  check_value (bool b) = true
  check_value (int n) = true
  check_value (float zero text) = false
  check_value (str s) = true
  check_value (arr items) = check_items items
  check_value (obj fields) = check_details fields

  pub check_items : Items → Bool
  check_items nil = true
  check_items (cons v items) = let rest = check_items items in check_value v && rest

  pub check_details : Fields → Bool
  check_details end = true
  check_details (field k v fields) = let rest = check_details fields in check_value v && rest

pub record VerifyResult : Type 0 where
  pub ok : Bool
  pub checked : ℕ
  pub first_bad_seq : Option ℕ
  pub reason : Option String

mismatch : ℕ → ℕ → String → VerifyResult
mismatch checked seq reason = record {
  ok = false;
  checked = checked;
  first_bad_seq = some seq;
  reason = some reason;
}

-- The hash of the last row, or else that of the start.
unfoldable pub head_hash : String → List AuditLog → String
head_hash prev [] = prev
head_hash prev (row ∷ rows) = head_hash row.row_hash rows

text_or_null : Option String → Json
text_or_null none = null
text_or_null (some s) = str s

module _ (formats : Formats) where
  id_or_null : Option ℕ → Json
  id_or_null none = null
  id_or_null (some id) = str (formats.uuid_text id)

  -- `payload`
  unfoldable pub payload_of : Content → Json
  unfolding id_or_null text_or_null
  payload_of content = obj (
      field "action" (str content.action) (
        field "actor_id" (id_or_null content.actor_id) (
          field "details" (obj content.details) (
            field "id" (str (formats.uuid_text content.id)) (
              field "ip" (text_or_null content.ip) (
                field "object_id" (text_or_null content.object_id) (
                  field "object_kind" (str content.object_kind) (
                    field "project_id" (id_or_null content.project_id)
                      (field "ts" (str (formats.time_text content.ts)) end)))))))))

  unfoldable pub canonical_row : Content → String
  unfolding payload_of
  canonical_row content = formats.dumps (payload_of content)

  unfoldable pub row_hash : String → String → String
  row_hash prev canonical = formats.sha256 (prev +s canonical)

  chained : String → ℕ → Content → AuditLog
  unfolding row_hash canonical_row
  chained prev seq content = record {
    seq = seq;
    content = content;
    prev_hash = prev;
    row_hash = row_hash prev (canonical_row content);
  }

  -- The table with the new row, unless the details are refused. `seq` is what the table assigns.
  unfoldable pub write_audit : ℕ → Content → List AuditLog → Option (List AuditLog)
  unfolding chained
  write_audit seq content rows =
      if check_details content.details
      then some (rows ++ chained (head_hash genesis_hash rows) seq content ∷ [])
      else none

  -- The loop of `verify_chain` over the rows, with the last hash and the count so far.
  unfoldable pub verify_rows : String → ℕ → List AuditLog → VerifyResult
  unfolding mismatch
  verify_rows prev checked [] = record {
    ok = true;
    checked = checked;
    first_bad_seq = none;
    reason = none;
  }
  verify_rows prev checked (row ∷ rows) =
      let rest = verify_rows row.row_hash (checked + 1) rows in
      if not (row.prev_hash =s prev)
      then mismatch checked row.seq "prev_hash mismatch"
      else if not (row.row_hash =s row_hash prev (canonical_row row.content))
      then mismatch checked row.seq "row_hash mismatch"
      else rest
