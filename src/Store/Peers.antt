-- ===== src/Store/Peers.antt =====
-- internal/store/wireguard.go: the queries on devices.
pub mod ReadBack
pub mod Allocate
pub mod Invariant
pub mod Keeps
pub mod Updates
pub mod Created
use Prim.Native.String.{String}
use tunploy.Common.{
  ℕ, suc, Bool, true, false, not, ◌&&◌, Option, none, some, List, [], ◌∷◌, ◌++◌, map, ◌==◌,
  if◌then◌else◌, length, is_empty, find, any, select, update_where, eq_text,
}
use tunploy.Common.Text.{Text}
use tunploy.Apperr.{Result, ok, err, missing, duplicate, subnet_full, failure, ◌>>=◌}
use tunploy.Wg.Net.{Addr, ip4, eq_addr, masked}
use tunploy.Wg.Model.{Instance, Peer, Key, or_default}
use tunploy.Wg.Address.{Next, found, out_of_fuel, next_address}
use tunploy.Wg.Address
use tunploy.Store.Tables.{
  Row, Counter, Db, to_second, null_time, same_name, instance_by_id, row_by_id,
}

abbrev pub or_missing {ℓ} : {A : Type ℓ} → Option A → Result A
or_missing none = err missing
or_missing (some a) = ok a

abbrev pub on_instance : ℕ → Row → Bool
on_instance instance_id r = r.instance_id == instance_id

-- Peers: the devices of one server, by ID.
peers : Db → ℕ → List Peer
peers db instance_id = map (λ (r : Row). r.peer) (select (on_instance instance_id) db.rows)

-- PeerByID
unfoldable pub peer_by_id : Db → ℕ → Result Peer
peer_by_id db id = or_missing (row_by_id db.rows id) >>= λ r. ok r.peer

-- peerAddresses
abbrev pub peer_addresses : List Row → ℕ → List Addr
peer_addresses rows instance_id =
    map (λ (r : Row). r.address) (select (on_instance instance_id) rows)

abbrev free_address : Next → Result Addr
free_address (found n) = ok (ip4 n)
free_address Address.subnet_full = err subnet_full
free_address out_of_fuel = err failure

-- The address that CreatePeer and MovePeer allocate on a server.
pub allocate : List Row → Instance → Result Addr
allocate rows s =
    free_address (next_address (masked s.address) (peer_addresses rows s.id ++ s.address.addr ∷ []))

-- The UNIQUE indexes of wg_peers, against the rows but the one with this ID.
abbrev pub clash : (Row → Bool) → List Row → ℕ → Bool
clash same rows id = any (λ r. not (r.id == id) && same r) rows

abbrev pub name_clash : List Row → ℕ → ℕ → Text → Bool
name_clash rows id instance_id name =
    clash (λ r. on_instance instance_id r && same_name r.name name) rows id

abbrev pub address_clash : List Row → ℕ → ℕ → Addr → Bool
address_clash rows id instance_id a =
    clash (λ r. on_instance instance_id r && eq_addr r.address a) rows id

abbrev pub key_clash : List Row → ℕ → Key → Bool
key_clash rows id key = clash (λ r. eq_text r.public_key key) rows id

abbrev refuse : Bool → String → Result (Unit {0})
refuse true column = err (duplicate column)
refuse false column = ok tt

-- Where a row breaks several indexes SQLite reports one of them: here the first of the list.
unfoldable pub check_unique : List (Bool × String) → Result (Unit {0})
check_unique [] = ok tt
check_unique ((broken, column) ∷ more) = refuse broken column >>= λ _. check_unique more

abbrev pub new_row : Peer → Row
new_row p = record {
  peer = record p {
    expires_at = null_time p.expires_at;
    usage_reset_at = none;
    share_token = [];
    share_expires_at = none;
    last_handshake = none;
  };
  reset_day = 0;
  reset_rx = 0;
  reset_tx = 0;
}

-- The device that CreatePeer returns: what was given, with the new ID, address and times.
abbrev pub created : Db → Peer → Addr → ℕ → Peer
created db p a now = record p {
  id = db.next_peer;
  address = a;
  limit_period = or_default p.limit_period;
  created_at = to_second now;
  updated_at = to_second now;
}

-- CreatePeer
pub create_peer : Db → Peer → ℕ → Result (Peer × Db)
create_peer db p now = do
  s ← or_missing (instance_by_id db.instances p.instance_id)
  a ← allocate db.rows s
  check_unique (
        (name_clash db.rows db.next_peer p.instance_id p.name, "name")
        ∷ (address_clash db.rows db.next_peer p.instance_id a, "address")
        ∷ (key_clash db.rows db.next_peer p.public_key, "public_key")
        ∷ [])
      >>= λ _.
          (let p' = created db p a now in
            ok (p', record db { rows = db.rows ++ new_row p' ∷ []; next_peer = suc db.next_peer }))

abbrev pub upsert_counter : ℕ → ℕ → ℕ → List Counter → List Counter
upsert_counter id rx tx [] = record { peer_id = id; rx = rx; tx = tx } ∷ []
upsert_counter id rx tx (c ∷ cs) =
    if c.peer_id == id
    then record { peer_id = id; rx = rx; tx = tx } ∷ cs
    else c ∷ upsert_counter id rx tx cs

-- setCounters
abbrev pub set_counters : ℕ → ℕ → ℕ → Db → Db
set_counters id rx tx db = record db { counters = upsert_counter id rx tx db.counters }

-- `UPDATE wg_peers SET … WHERE id = ?`, then expectOneRow.
abbrev pub update_row : (Row → Row) → ℕ → Db → Db
update_row f id db = record db { rows = update_where (λ (r : Row). r.id == id) f db.rows }

-- The row after MovePeer's UPDATE.
abbrev pub moved_row : ℕ → Addr → ℕ → Row → Row
moved_row instance_id a now r = record r {
  peer = record r.peer {
    instance_id = instance_id;
    address = a;
    last_handshake = none;
    updated_at = to_second now;
  };
}

-- MovePeer
pub move_peer : Db → ℕ → ℕ → ℕ → Result (Peer × Db)
move_peer db id instance_id now = do
  s ← or_missing (instance_by_id db.instances instance_id)
  a ← allocate db.rows s
  r ← or_missing (row_by_id db.rows id)
  check_unique (
        (name_clash db.rows id instance_id r.name, "name")
        ∷ (address_clash db.rows id instance_id a, "address")
        ∷ [])
      >>= λ _.
          (let db' = set_counters id 0 0 (update_row (moved_row instance_id a now) id db) in
            peer_by_id db' id >>= λ p. ok (p, db'))

-- The row after UpdatePeer's UPDATE.
abbrev pub updated_row : Peer → ℕ → Row → Row
updated_row p now r = record r {
  peer = record r.peer {
    name = p.name;
    enabled = p.enabled;
    data_limit = p.data_limit;
    limit_period = or_default p.limit_period;
    expires_at = null_time p.expires_at;
    external_id = p.external_id;
    metadata = p.metadata;
    speed_limit = p.speed_limit;
    updated_at = to_second now;
  };
}

-- UpdatePeer
pub update_peer : Db → Peer → ℕ → Result (Peer × Db)
update_peer db p now = do
  r ← or_missing (row_by_id db.rows p.id)
  check_unique ((name_clash db.rows p.id r.instance_id p.name, "name") ∷ []) >>= λ _.
      (let db' = update_row (updated_row p now) p.id db in peer_by_id db' p.id >>= λ q. ok (q, db'))

abbrev pub shared_row : Text → Option ℕ → Row → Row
shared_row token expires r = record r {
  peer = record r.peer { share_token = token; share_expires_at = null_time expires };
}

abbrev pub token_clash : Db → ℕ → Text → Bool
token_clash db id token =
    not (is_empty token) && clash (λ (q : Row). eq_text q.share_token token) db.rows id

-- SetPeerShare: an empty token is NULL, which no index compares.
unfoldable pub set_peer_share : Db → ℕ → Text → Option ℕ → Result (Peer × Db)
set_peer_share db id token expires = or_missing (row_by_id db.rows id) >>= λ r.
    (let db' = update_row (shared_row token expires) id db in
      if token_clash db id token then err failure else (peer_by_id db' id >>= λ p. ok (p, db')))

-- PeerByShareToken
unfoldable pub peer_by_share_token : Db → Text → Result Peer
peer_by_share_token db token =
    if is_empty token
    then err missing
    else (or_missing (find (λ (r : Row). eq_text r.share_token token) db.rows) >>= λ r. ok r.peer)

-- What ON DELETE CASCADE leaves when the devices that pass the test go.
abbrev pub drop_rows : (ℕ → Bool) → Db → Db
drop_rows gone db = record db {
  rows = select (λ (r : Row). not (gone r.id)) db.rows;
  counters = select (λ c. not (gone c.peer_id)) db.counters;
  usage = select (λ u. not (gone u.peer_id)) db.usage;
}

-- DeletePeer
pub delete_peer : Db → ℕ → Result Db
delete_peer db id = or_missing (row_by_id db.rows id) >>= λ _. ok (drop_rows (λ i. i == id) db)

-- PeerCounts, at one server; a missing entry reads as 0.
abbrev pub peer_count : Db → ℕ → ℕ
peer_count db instance_id = length (select (on_instance instance_id) db.rows)
