-- ===== src/Mesh/Cache/Tests.antt =====
-- Two projects that ask the same question through one connection.
use osaip.Base.{
  ℕ, ◌≡◌, refl, none, some, false, true, String, Option, [], ◌∷◌, arith, ◌=s◌, ◌==◌, if◌then◌else◌,
}
use osaip.Guardrails.Types.{codes}
use osaip.Mesh.Models.{LlmCache, Db}
use osaip.Mesh.Request.{CompletionRequest}
use osaip.Mesh.Cache.{
  Payload, payload, compute_request_hash, cached_response, cache_lookup, cache_store,
}
use osaip.Mesh.Cache.Keys.{cache_lookup-store, cache_lookup-other_project}

abbrev question : CompletionRequest
question = record {
  model = "m";
  messages = record { role = "user"; content = codes "hi" } ∷ [];
  max_tokens = 16;
  temperature = record { is_zero = true; four_digits = "0.0000" };
}

abbrev hash_of : Option ℕ → String
hash_of none = "none"
hash_of (some id) = if id == 1 then "one" else "other"

abbrev hash : Payload → String
hash p = hash_of p.project_id

abbrev row : LlmCache
row = record {
  request_hash = "one";
  connection_id = some 5;
  project_id = some 1;
  content = codes "hello";
  model_version = none;
  tokens_estimated = false;
  tokens_in = 3;
  tokens_out = 2;
  expires_at = 0;
}

abbrev empty : Db
empty = record {
  quotas = [];
  reservations = [];
  calls = [];
  messages = [];
  cache = [];
  events = [];
  traces = [];
  spans = [];
  notifications = [];
  audit = [];
}

cache_lookup-store_example : cache_lookup (cache_store row 100 60 empty) 200 "one" ≡ (
    if row.request_hash =s "one" then some (cached_response row) else cache_lookup empty 200 "one")
cache_lookup-store_example = cache_lookup-store empty row 100 60 200 "one" (omega arith)

cache_lookup-other_project_example :
    cache_lookup
      (cache_store row 100 60 empty)
      200
      (compute_request_hash hash (some 5) (some 2) question question.messages)
    ≡ cache_lookup empty 200
        (compute_request_hash hash (some 5) (some 2) question question.messages)
unfolding payload
cache_lookup-other_project_example =
    cache_lookup-other_project hash empty row 100 60 200 (some 5) (some 5) (some 1) (some 2)
      question question question.messages question.messages (λ e. cc e) (λ e. cc e)
      (unfold compute_request_hash in refl) (omega arith)
