-- ===== src/Store/Histories.antt =====
-- Any sequence of queries on servers and devices, each of which is made as the services make it.
use tunploy.Common.{
  ℕ, ◌≡◌, refl, inl, inr, Bool, true, Option, List, [], ◌∷◌, if◌then◌else◌, Bool-cases, is_empty,
  All,
}
use tunploy.Common.Text.{Text}
use tunploy.Apperr.{Result, ok, err, Fields}
use tunploy.Wg.Model.{Instance, Peer}
use tunploy.Wg.Validate.{validate_instance}
use tunploy.Wg.Validate.Server.{IsWord, validate_instance_iff}
use tunploy.Store.Tables.{Db}
use tunploy.Store.Peers.{create_peer, move_peer, update_peer, set_peer_share, delete_peer}
use tunploy.Store.Peers.Invariant.{Inv}
use tunploy.Store.Peers.Keeps.{create_peer-Inv}
use tunploy.Store.Peers.Updates.{
  move_peer-Inv, update_peer-Inv, set_peer_share-Inv, delete_peer-Inv,
}
use tunploy.Store.Servers.{create_instance, update_instance, delete_instance}
use tunploy.Store.Servers.Invariant.{create_instance-Inv, update_instance-Inv, delete_instance-Inv}

pub data Query : Type 0 where
  create_server : Instance → Query
  update_server : Instance → Query
  delete_server : ℕ → Query
  create_device : Peer → Query
  update_device : Peer → Query
  move_device : ℕ → ℕ → Query
  share_device : ℕ → Text → Option ℕ → Query
  delete_device : ℕ → Query

abbrev kept {ℓ} : {A : Type ℓ} → Db → Result (A × Db) → Db
kept db (ok (a, db')) = db'
kept db (err e) = db

abbrev kept_state : Db → Result Db → Db
kept_state db (ok db') = db'
kept_state db (err e) = db

-- The database after a query at an instant; one that fails leaves it as it was. A server is only
-- created once it passed its checks.
apply_query : (Text → Bool) → Db → ℕ × Query → Db
apply_query is_ip db (now, create_server s) =
    if is_empty (validate_instance is_ip s) then kept db (create_instance db s now) else db
apply_query is_ip db (now, update_server s) = kept db (update_instance db s now)
apply_query is_ip db (now, delete_server id) = kept_state db (delete_instance db id)
apply_query is_ip db (now, create_device p) = kept db (create_peer db p now)
apply_query is_ip db (now, update_device p) = kept db (update_peer db p now)
apply_query is_ip db (now, move_device id instance_id) = kept db (move_peer db id instance_id now)
apply_query is_ip db (now, share_device id token expires) =
    kept db (set_peer_share db id token expires)
apply_query is_ip db (now, delete_device id) = kept_state db (delete_peer db id)

pub run : (Text → Bool) → Db → List (ℕ × Query) → Db
run is_ip db [] = db
run is_ip db (q ∷ qs) = run is_ip (apply_query is_ip db q) qs

abbrev pub empty_db : Db
empty_db = record {
  instances = [];
  rows = [];
  counters = [];
  usage = [];
  next_instance = 1;
  next_peer = 1;
}

-- The addresses of the servers that are asked for are uint32 numbers.
abbrev AsksWords : ℕ × Query → Type 0
AsksWords (now, create_server s) = IsWord s.address.addr
AsksWords (now, update_server s) = Unit
AsksWords (now, delete_server id) = Unit
AsksWords (now, create_device p) = Unit
AsksWords (now, update_device p) = Unit
AsksWords (now, move_device id instance_id) = Unit
AsksWords (now, share_device id token expires) = Unit
AsksWords (now, delete_device id) = Unit

kept-Inv {ℓ} :
    {A : Type ℓ} (db : Db) (r : Result (A × Db))
    → Inv db
    → ((a : A) (db' : Db) → r ≡ ok (a, db') → Inv db')
    → Inv (kept db r)
kept-Inv db (ok (a, db')) v h = h a db' refl
kept-Inv db (err e) v h = v

kept_state-Inv :
    (db : Db) (r : Result Db) → Inv db → ((db' : Db) → r ≡ ok db' → Inv db') → Inv (kept_state db r)
kept_state-Inv db (ok db') v h = h db' refl
kept_state-Inv db (err e) v h = v

empty_of : (fs : Fields) → is_empty fs ≡ true → fs ≡ []
empty_of [] h = refl
empty_of (f ∷ fs) h = absurd (cc)

apply_query-Inv :
    (is_ip : Text → Bool) (db : Db) (q : ℕ × Query)
    → AsksWords q
    → Inv db
    → Inv (apply_query is_ip db q)
unfolding apply_query
apply_query-Inv is_ip db (now, create_server s) w v =
    elim (Bool-cases (is_empty (validate_instance is_ip s))) [
      | inl valid ↦
          let server = (validate_instance_iff is_ip s w).0 (empty_of _ valid) in
          rw valid (
            kept-Inv db (create_instance db s now) v (λ t db' e.
              create_instance-Inv db v s t now db' (record { address = server.address; word = w })
                e))
      | inr invalid ↦ rw invalid v
    ]
apply_query-Inv is_ip db (now, update_server s) w v =
    kept-Inv db (update_instance db s now) v (λ t db' e. update_instance-Inv db v s t now db' e)
apply_query-Inv is_ip db (now, delete_server id) w v =
    kept_state-Inv db (delete_instance db id) v (λ db' e. delete_instance-Inv db v id db' e)
apply_query-Inv is_ip db (now, create_device p) w v =
    kept-Inv db (create_peer db p now) v (λ q db' e. create_peer-Inv db v p q now db' e)
apply_query-Inv is_ip db (now, update_device p) w v =
    kept-Inv db (update_peer db p now) v (λ q db' e. update_peer-Inv db v p q now db' e)
apply_query-Inv is_ip db (now, move_device id instance_id) w v =
    kept-Inv db (move_peer db id instance_id now) v
      (λ q db' e. move_peer-Inv db v id instance_id now q db' e)
apply_query-Inv is_ip db (now, share_device id token expires) w v =
    kept-Inv db (set_peer_share db id token expires) v
      (λ q db' e. set_peer_share-Inv db v id token expires q db' e)
apply_query-Inv is_ip db (now, delete_device id) w v =
    kept_state-Inv db (delete_peer db id) v (λ db' e. delete_peer-Inv db v id db' e)

run-Inv :
    (is_ip : Text → Bool) (db : Db) (qs : List (ℕ × Query))
    → All AsksWords qs
    → Inv db
    → Inv (run is_ip db qs)
unfolding run
run-Inv is_ip db [] w v = v
run-Inv is_ip db (q ∷ qs) w v =
    run-Inv is_ip (apply_query is_ip db q) qs w.1 (apply_query-Inv is_ip db q w.0 v)

-- After any history of queries from the empty database, in which a server is created only when it
-- passes Instance.Validate: devices never share an ID, a public key or, on one server, an address,
-- and each device's server exists and its address is a host of that server's subnet other than the
-- server's own.
pub run_empty-Inv :
    (is_ip : Text → Bool) (qs : List (ℕ × Query)) → All AsksWords qs → Inv (run is_ip empty_db qs)
run_empty-Inv is_ip qs w =
    run-Inv is_ip empty_db qs w (record { placed = tt; apart = tt; fresh = tt; served = tt })
