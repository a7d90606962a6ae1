-- ===== src/Mesh/Cache.antt =====
-- apps/mesh/osaip_mesh/cache.py. The hash of the canonical JSON is a parameter, a function of the
-- payload that is encoded.
pub mod Keys
mod Tests
use osaip.Base.{
  ℕ, ◌+◌, ◌*◌, String, Bool, true, false, ◌&&◌, ◌||◌, Option, none, some, List, [], ◌∷◌, ltb, leb,
  ◌=s◌, if◌then◌else◌, contains,
}
use osaip.Guardrails.Types.{Text}
use osaip.Mesh.Models.{LlmCache, Db}
use osaip.Mesh.Request.{Message, CompletionRequest}

pub record Payload : Type 0 where
  pub connection_id : Option ℕ
  pub project_id : Option ℕ
  pub model : String
  pub max_tokens : ℕ
  pub temperature : String
  pub messages : List Message

unfoldable pub payload : Option ℕ → Option ℕ → CompletionRequest → List Message → Payload
payload connection_id project_id request redacted_messages = record {
  connection_id = connection_id;
  project_id = project_id;
  model = request.model;
  max_tokens = request.max_tokens;
  temperature = request.temperature.four_digits;
  messages = redacted_messages;
}

unfoldable pub compute_request_hash :
    (Payload → String) → Option ℕ → Option ℕ → CompletionRequest → List Message → String
unfolding payload
compute_request_hash hash connection_id project_id request redacted_messages =
    hash (payload connection_id project_id request redacted_messages)

unfoldable pub is_cacheable : ℕ → String → Bool → Bool
is_cacheable ttl_s purpose zero_temperature =
    if leb ttl_s 0 || contains purpose ("guardrail" ∷ "eval" ∷ []) then false else zero_temperature

pub record CachedResponse : Type 0 where
  pub content : Text
  pub tokens_in : ℕ
  pub tokens_out : ℕ
  pub model_version : Option String
  pub tokens_estimated : Bool

pub cached_response : LlmCache → CachedResponse
cached_response row = record {
  content = row.content;
  tokens_in = row.tokens_in;
  tokens_out = row.tokens_out;
  model_version = row.model_version;
  tokens_estimated = row.tokens_estimated;
}

-- The row with the hash, unless it has expired; `request_hash` is the primary key.
find_row : String → ℕ → List LlmCache → Option LlmCache
find_row request_hash now [] = none
find_row request_hash now (row ∷ rows) =
    if row.request_hash =s request_hash && ltb now row.expires_at
    then some row
    else find_row request_hash now rows

response_of : Option LlmCache → Option CachedResponse
unfolding cached_response
response_of none = none
response_of (some row) = some (cached_response row)

unfoldable pub cache_lookup : Db → ℕ → String → Option CachedResponse
unfolding find_row response_of
cache_lookup db now request_hash = response_of (find_row request_hash now db.cache)

-- `on_conflict_do_update(index_elements=[request_hash])`: the ids of the stored row stay.
upsert : LlmCache → List LlmCache → List LlmCache
upsert new [] = new ∷ []
upsert new (row ∷ rows) =
    if row.request_hash =s new.request_hash
    then record new { connection_id = row.connection_id; project_id = row.project_id } ∷ rows
    else row ∷ upsert new rows

-- `row` carries the columns that `cache_store` writes; a time to live is in seconds.
unfoldable pub cache_store : LlmCache → ℕ → ℕ → Db → Db
unfolding upsert
cache_store row now ttl_s db = record db {
  cache = upsert (record row { expires_at = now + ttl_s * 1000000 }) db.cache;
}
