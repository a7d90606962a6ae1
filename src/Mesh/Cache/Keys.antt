-- ===== src/Mesh/Cache/Keys.antt =====
-- Which call a stored answer is served to.
use osaip.Base.{
  ℕ, ◌+◌, ◌*◌, ◌<◌, String, false, ◌≡◌, ◌≢◌, Option, some, List, [], ◌∷◌, ◌=s◌, eq_iff,
  if◌then◌else◌, arith, Bool-cases, inl, inr, ap, sym, ◌∙◌,
}
use osaip.Mesh.Models.{LlmCache, Db}
use osaip.Mesh.Request.{Message, CompletionRequest}
use osaip.Mesh.Cache.{
  Payload, payload, compute_request_hash, cached_response, find_row, response_of, cache_lookup,
  upsert, cache_store,
}

find_row-upsert :
    (new : LlmCache) (now : ℕ) (key : String) (rows : List LlmCache)
    → now < new.expires_at
    → response_of (find_row key now (upsert new rows)) ≡ (
        if new.request_hash =s key
        then some (cached_response new)
        else response_of (find_row key now rows))
unfolding upsert find_row response_of
find_row-upsert new now key [] live = ground (arith, eq_iff new.request_hash key)
find_row-upsert new now key (row ∷ rows) live = ground (
  arith,
  eq_iff new.request_hash key,
  eq_iff row.request_hash key,
  eq_iff row.request_hash new.request_hash,
  find_row-upsert new now key rows live,
)

not_same : (s t : String) → s ≢ t → (s =s t) ≡ false
not_same s t ne = elim (Bool-cases (s =s t)) [
  | inl same ↦ absurd (ne ((eq_iff s t).0 same))
  | inr other ↦ other
]

-- Until a stored answer expires, a lookup returns it under its own hash, and what it returned
-- before under every other hash.
pub cache_lookup-store :
    (db : Db) (row : LlmCache) (now ttl_s later : ℕ) (key : String)
    → later < now + ttl_s * 1000000
    → cache_lookup (cache_store row now ttl_s db) later key
      ≡ (if row.request_hash =s key then some (cached_response row) else cache_lookup db later key)
unfolding cache_lookup cache_store
cache_lookup-store db row now ttl_s later key live =
    find_row-upsert (record row { expires_at = now + ttl_s * 1000000 }) later key db.cache live

-- An answer that is stored for one project does not change what a lookup for another project
-- finds, whatever the connections, the requests and the messages, when the two requests do not
-- collide under the hash.
pub cache_lookup-other_project :
    (hash : Payload → String) (db : Db) (row : LlmCache) (now ttl_s later : ℕ)
    (c c' p p' : Option ℕ) (r r' : CompletionRequest) (m m' : List Message)
    → (hash (payload c p r m) ≡ hash (payload c' p' r' m') → payload c p r m ≡ payload c' p' r' m')
    → p ≢ p'
    → row.request_hash ≡ compute_request_hash hash c p r m
    → later < now + ttl_s * 1000000
    → cache_lookup (cache_store row now ttl_s db) later (compute_request_hash hash c' p' r' m')
      ≡ cache_lookup db later (compute_request_hash hash c' p' r' m')
unfolding compute_request_hash
cache_lookup-other_project hash db row now ttl_s later c c' p p' r r' m m' apart ne stored live =
    let key = hash (payload c' p' r' m') in
    let other : (row.request_hash =s key) ≡ false =
      not_same row.request_hash key
        (λ e. ne (ap (λ (y : Payload). y.project_id) (apart (sym stored ∙ e)))) in
    cache_lookup-store db row now ttl_s later key live ∙ (rw other)
