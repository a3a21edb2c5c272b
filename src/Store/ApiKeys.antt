-- ===== src/Store/ApiKeys.antt =====
-- internal/store/apikeys.go: API keys, and the replies kept for requests that are sent again.
pub mod Replies
use tunploy.Common.{
  ℕ, zero, suc, ◌+◌, ◌-◌, ◌*◌, ◌/◌, ◌%◌, ◌^◌, ◌≤◌, ◌<◌, ◌≡◌, refl, sym, ap, ap₂, subst, ◌∙◌, ◌≢◌,
  ◌↔◌, ◌⊎◌, inl, inr, Bool, true, false, not, ◌&&◌, ◌||◌, Option, none, some, List, [], ◌∷◌, ◌++◌,
  map, append_assoc, append-nil, arith, ltb, leb, ◌==◌, if◌then◌else◌, ltb→lt, lt→ltb, leb→le,
  le→leb, ==_iff, ==_refl, tests, and_true, Bool-cases, Option-cases, is_some, length,
  length-append, replicate, is_empty, find, any, all, select, update_where, All, All-append,
  All-select, All-find, All-update_where, All-mono, mem, mem-append, eq_text, eq_text_refl,
  eq_text_sound, get_or, set, length-set, get_or-set_self,
}
use tunploy.Common.Text.{Text}
use tunploy.Apperr.{
  Result, ok, err, ◌>>=◌, missing, duplicate, idempotency_mismatch, idempotency_busy,
}
use tunploy.Store.Tables.{to_second, null_time, same_name}
use tunploy.Store.Peers.{or_missing, check_unique}
use tunploy.Store.Traffic.{seconds}

-- APIKey
pub record ApiKey : Type 0 where
  pub id : ℕ
  pub name : Text
  pub prefix : Text
  pub token_hash : Text
  pub scopes : List Text
  pub expires_at : Option ℕ
  pub last_used_at : Option ℕ
  pub last_used_ip : Text
  pub created_at : ℕ

-- A row of api_idempotency, its time in whole seconds; status 0 marks a request that still runs.
pub record Reply : Type 0 where
  pub key_id : ℕ
  pub key : Text
  pub request_hash : Text
  pub status : ℕ
  pub content_type : Text
  pub body : Text
  pub created_at : ℕ

-- StoredResponse
pub record Response : Type 0 where
  pub status : ℕ
  pub content_type : Text
  pub body : Text

pub record Keys : Type 0 where
  pub keys : List ApiKey
  pub replies : List Reply
  pub next_key : ℕ

-- APIKey.Expired
abbrev key_expired : ApiKey → ℕ → Bool
key_expired k now = elim k.expires_at [ none ↦ false | some at ↦ leb at now ]

abbrev key_by_id : List ApiKey → ℕ → Option ApiKey
key_by_id keys id = find (λ (k : ApiKey). k.id == id) keys

abbrev stored_key : Keys → ApiKey → ℕ → ApiKey
stored_key t k now = record k {
  id = t.next_key;
  created_at = to_second now;
  expires_at = null_time k.expires_at;
  last_used_at = none;
  last_used_ip = [];
}

-- CreateAPIKey, with the row that it writes.
create_api_key : Keys → ApiKey → ℕ → Result (ApiKey × Keys)
create_api_key t k now =
    check_unique (
      (any (λ (j : ApiKey). same_name j.name k.name) t.keys, "name")
      ∷ (any (λ (j : ApiKey). eq_text j.token_hash k.token_hash) t.keys, "token_hash")
      ∷ [])
    >>= λ _. ok (
      record k { id = t.next_key; created_at = to_second now },
      record t { keys = t.keys ++ stored_key t k now ∷ []; next_key = suc t.next_key },
    )

-- APIKeys
api_keys : Keys → List ApiKey
api_keys t = t.keys

-- APIKeyByID
api_key_by_id : Keys → ℕ → Result ApiKey
api_key_by_id t id = or_missing (key_by_id t.keys id)

-- APIKeyByToken
api_key_by_token : Keys → Text → Result ApiKey
api_key_by_token t hash = or_missing (find (λ (k : ApiKey). eq_text k.token_hash hash) t.keys)

-- TouchAPIKey
touch_api_key : Keys → ℕ → Text → ℕ → Keys
touch_api_key t id ip at = record t {
  keys =
      update_where (λ (k : ApiKey). k.id == id)
        (λ k. record k { last_used_at = some (to_second at); last_used_ip = ip }) t.keys;
}

-- DeleteAPIKey, with the replies that go with it.
delete_api_key : Keys → ℕ → Result Keys
delete_api_key t id = or_missing (key_by_id t.keys id) >>= λ _. ok (record t {
  keys = select (λ (k : ApiKey). not (k.id == id)) t.keys;
  replies = select (λ (r : Reply). not (r.key_id == id)) t.replies;
})

-- IdempotencyTTL
abbrev pub idempotency_ttl : ℕ
idempotency_ttl = 86_400_000_000_000

abbrev pub idempotency_stale : ℕ
idempotency_stale = 300_000_000_000

abbrev pub is_for : ℕ → Text → Reply → Bool
is_for key_id key r = r.key_id == key_id && eq_text r.key key

-- The rows that ClaimIdempotencyKey deletes first.
abbrev pub has_lapsed : ℕ → Reply → Bool
has_lapsed now r =
    ltb r.created_at (seconds (now - idempotency_ttl))
    || r.status == 0 && ltb r.created_at (seconds (now - idempotency_stale))

abbrev pub lapses : ℕ → Text → ℕ → Reply → Bool
lapses key_id key now r = is_for key_id key r && has_lapsed now r

abbrev pub response_of : Reply → Response
response_of r = record { status = r.status; content_type = r.content_type; body = r.body }

abbrev pub new_reply : ℕ → Text → Text → ℕ → Reply
new_reply key_id key hash now = record {
  key_id = key_id;
  key = key;
  request_hash = hash;
  status = 0;
  content_type = [];
  body = [];
  created_at = seconds now;
}

-- The answer to a request whose key is known: whatever it is, the transaction rolls back.
abbrev pub replay : Reply → Text → List Reply → Result (Option Response × List Reply)
replay r hash before =
    if not (eq_text r.request_hash hash)
    then err idempotency_mismatch
    else (if r.status == 0 then err idempotency_busy else ok (some (response_of r), before))

abbrev pub claim_found :
    List Reply
    → List Reply
    → ℕ
    → Text
    → Text
    → ℕ
    → Option Reply
    → Result (Option Response × List Reply)
claim_found before rs key_id key hash now none = ok (none, rs ++ new_reply key_id key hash now ∷ [])
claim_found before rs key_id key hash now (some r) = replay r hash before

-- ClaimIdempotencyKey: `none` where the caller should run the request.
unfoldable pub claim_idempotency_key :
    List Reply → ℕ → Text → Text → ℕ → Result (Option Response × List Reply)
claim_idempotency_key replies key_id key hash now =
    let rs = select (λ r. not (lapses key_id key now r)) replies in
    claim_found replies rs key_id key hash now (find (is_for key_id key) rs)

-- FinishIdempotencyKey
unfoldable pub finish_idempotency_key : List Reply → ℕ → Text → Response → List Reply
finish_idempotency_key replies key_id key a =
    update_where (is_for key_id key)
      (λ r. record r { status = a.status; content_type = a.content_type; body = a.body }) replies

-- ReleaseIdempotencyKey
unfoldable pub release_idempotency_key : List Reply → ℕ → Text → List Reply
release_idempotency_key replies key_id key = select (λ r. not (is_for key_id key r)) replies

-- DeleteIdempotencyKeysBefore, without the count.
unfoldable pub delete_idempotency_keys_before : List Reply → ℕ → List Reply
delete_idempotency_keys_before replies t =
    select (λ (r : Reply). not (ltb r.created_at (seconds t))) replies
