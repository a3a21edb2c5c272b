-- ===== src/Store/Peers/ReadBack.antt =====
-- What PeerByID answers after a query on one device.
use tunploy.Common.{
  ℕ, ◌≡◌, refl, sym, ap, ◌∙◌, inl, inr, true, not, none, some, List, [], ◌∷◌, ◌==◌, Bool-cases,
  select, update_where,
}
use tunploy.Apperr.{Result, ok, err, ◌>>=◌, >>=-eq-ok}
use tunploy.Wg.Model.{Peer, or_default}
use tunploy.Store.Tables.{Db, Row, row_by_id, null_time, to_second}
use tunploy.Store.Peers.{
  or_missing, peer_by_id, update_peer, updated_row, update_row, delete_peer, drop_rows,
  check_unique, name_clash,
}

abbrev pub with_state : Db → Peer → Result (Peer × Db)
with_state d q = ok (q, d)

-- A query that ends by reading the device returns what is found afterwards.
pub read_back :
    (o : Result Peer) (d d' : Db) (p : Peer)
    → (o >>= with_state d) ≡ ok (p, d')
    → (d' ≡ d) × (o ≡ ok p)
read_back (err e) d d' p h = absurd (cc)
read_back (ok q) d d' p h = (cc, cc)

pub found_after :
    (db db' : Db) (id : ℕ) (p : Peer)
    → (peer_by_id db id >>= with_state db) ≡ ok (p, db')
    → peer_by_id db' id ≡ ok p
found_after db db' id p h =
    let (same, found) = read_back (peer_by_id db id) db db' p h in
    ap (λ d. peer_by_id d id) same ∙ found

ok_peer : (x y : Peer) → ok x ≡ ok y → x ≡ y
ok_peer x y e = cc

-- The device that is found after its row changed.
pub row-updated :
    (f : Row → Row) (rows : List Row) (id : ℕ) (q : Peer)
    → ((r : Row) → (f r).id ≡ r.id)
    → or_missing (row_by_id (update_where (λ (r : Row). r.id == id) f rows) id)
        >>= (λ (r : Row). ok r.peer)
      ≡ ok q
    → (r : Row) × (row_by_id rows id ≡ some r) × (q ≡ (f r).peer)
row-updated f [] id q keeps h = absurd (cc)
row-updated f (r ∷ rows) id q keeps h = elim (Bool-cases (r.id == id)) [
  | inl here ↦
      let there : ((f r).id == id) ≡ true = ap (λ i. i == id) (keeps r) ∙ here in
      (r, rw here refl, ok_peer _ _ (sym (rw (here, there) at h)))
  | inr away ↦
      let (s, found, same) = row-updated f rows id q keeps (rw (away, away) at h) in
      (s, rw away found, same)
]

-- The device after an update: what it was before, with the fields that an update writes.
abbrev pub updated : Peer → ℕ → Peer → Peer
updated p now before = record before {
  name = p.name;
  enabled = p.enabled;
  data_limit = p.data_limit;
  limit_period = or_default p.limit_period;
  expires_at = null_time p.expires_at;
  external_id = p.external_id;
  metadata = p.metadata;
  speed_limit = p.speed_limit;
  updated_at = to_second now;
}

pub update_peer-found :
    (db db' : Db) (p q : Peer) (now : ℕ)
    → update_peer db p now ≡ ok (q, db')
    → (peer_by_id db' p.id ≡ ok q)
      × ((r : Row) × (row_by_id db.rows p.id ≡ some r) × (q ≡ updated p now r.peer))
unfolding update_peer peer_by_id
update_peer-found db db' p q now h =
    let next = update_row (updated_row p now) p.id db in
    let (r, known, rest) =
      >>=-eq-ok (or_missing (row_by_id db.rows p.id))
        (λ r. check_unique ((name_clash db.rows p.id r.instance_id p.name, "name") ∷ []) >>= λ u.
          (peer_by_id next p.id >>= with_state next))
        h in
    let (u, free, made) =
      >>=-eq-ok (check_unique ((name_clash db.rows p.id r.instance_id p.name, "name") ∷ []))
        (λ u. peer_by_id next p.id >>= with_state next) rest in
    let (same, found) = read_back (peer_by_id next p.id) next db' q made in
    (
      found_after next db' p.id q made,
      row-updated (updated_row p now) db.rows p.id q (λ r. refl) found,
    )

rows-gone :
    (id : ℕ) (rows : List Row) → row_by_id (select (λ (r : Row). not (r.id == id)) rows) id ≡ none
rows-gone id [] = refl
rows-gone id (r ∷ rows) = elim (Bool-cases (r.id == id)) [
  | inl here ↦ rw here (rows-gone id rows)
  | inr away ↦ rw (away, away) (rows-gone id rows)
]

pub delete_peer-gone :
    (db db' : Db) (id : ℕ) → delete_peer db id ≡ ok db' → row_by_id db'.rows id ≡ none
unfolding delete_peer
delete_peer-gone db db' id h =
    let (r, known, same) =
      >>=-eq-ok (or_missing (row_by_id db.rows id)) (λ r. ok (drop_rows (λ i. i == id) db)) h in
    let left : drop_rows (λ i. i == id) db ≡ db' = cc in
    ap (λ (d : Db). row_by_id d.rows id) (sym left) ∙ rows-gone id db.rows
