-- ===== src/Store/Peers/Updates.antt =====
-- Moving, changing, sharing and deleting a device keeps the invariant.
use tunploy.Common.{
  ℕ, ◌<◌, ◌≡◌, refl, sym, subst, ◌≢◌, inl, inr, Bool, Option, List, [], ◌∷◌, arith, ◌==◌,
  Bool-cases, All, All-select, All-update_where,
}
use tunploy.Common.Text.{Text}
use tunploy.Apperr.{ok, >>=-eq-ok}
use tunploy.Wg.Model.{Peer}
use tunploy.Store.Tables.{Row, Db, instance_by_id, row_by_id}
use tunploy.Store.Peers.{
  allocate, check_unique, or_missing, update_row, moved_row, move_peer, updated_row, update_peer,
  shared_row, set_peer_share, drop_rows, delete_peer, set_counters, peer_by_id, token_clash,
}
use tunploy.Store.Peers.Invariant.{Apart, IsServed, Inv, AllApart-update, All-select_apart}
use tunploy.Store.Peers.Keeps.{or_missing-eq-ok, ok_state, IsServed-of}

All-unit : (rs : List Row) → All (λ (r : Row). Unit {0}) rs
All-unit [] = tt
All-unit (r ∷ rs) = (tt, All-unit rs)

set_counters-Inv : (id rx tx : ℕ) (db : Db) → Inv db → Inv (set_counters id rx tx db)
set_counters-Inv id rx tx db v = record {
  placed = v.placed;
  apart = v.apart;
  fresh = v.fresh;
  served = v.served;
}

module _ (db : Db) (v : Inv db) where
  update_row-Inv :
      (k : ℕ) (f : Row → Row) (Q : Row → Type 0)
      → ((r s : Row) → r.id ≡ k → s.id ≢ k → Q s → Apart r s → Apart (f r) s)
      → All Q db.rows
      → ((r : Row) → (f r).id ≡ r.id)
      → ((r : Row) → IsServed db.instances r → IsServed db.instances (f r))
      → Inv (update_row f k db)
  update_row-Inv k f Q keep q id serve = record {
    placed = v.placed;
    apart = AllApart-update k f Q keep db.rows q v.apart;
    fresh =
        All-update_where (λ (r : Row). r.id < db.next_peer) _ f db.rows
          (λ r l. omega (arith, id r, l)) v.fresh;
    served = All-update_where (IsServed db.instances) _ f db.rows serve v.served;
  }

  -- MovePeer
  pub move_peer-Inv :
      (id instance_id now : ℕ) (q : Peer) (db' : Db)
      → move_peer db id instance_id now ≡ ok (q, db')
      → Inv db'
  unfolding move_peer
  move_peer-Inv id instance_id now q db' h =
      let (s, es, e1) = >>=-eq-ok (or_missing (instance_by_id db.instances instance_id)) _ h in
      let (a, ea, e2) = >>=-eq-ok (allocate db.rows s) _ e1 in
      let (r, er, e3) = >>=-eq-ok (or_missing (row_by_id db.rows id)) _ e2 in
      let (u, eu, e4) = >>=-eq-ok (check_unique _) _ e3 in
      let (p, ep, e5) = >>=-eq-ok (peer_by_id _ id) _ e4 in
      let known = or_missing-eq-ok _ es in
      let f = moved_row instance_id a now in
      let free = (IsServed-of db v instance_id s a (f r) known ea refl refl).1 in
      subst Inv (ok_state _ _ _ _ e5) (
        set_counters-Inv id 0 0 _ (
          update_row-Inv id f (λ t. t.instance_id ≡ instance_id → t.address ≢ a)
            (λ x y ex ny qy h. record {
              ids = h.ids;
              keys = h.keys;
              addresses = λ e d. qy (sym e) (sym d);
            })
            free (λ x. refl)
            (λ x served. (IsServed-of db v instance_id s a (f x) known ea refl refl).0)))

  same_place-Inv :
      (k : ℕ) (f : Row → Row)
      → ((r s : Row) → Apart r s → Apart (f r) s)
      → ((r : Row) → (f r).id ≡ r.id)
      → ((r : Row) → IsServed db.instances r → IsServed db.instances (f r))
      → Inv (update_row f k db)
  same_place-Inv k f keep id serve =
      update_row-Inv k f (λ r. Unit {0}) (λ r s e n q h. keep r s h) (All-unit db.rows) id serve

  -- UpdatePeer
  pub update_peer-Inv :
      (p q : Peer) (now : ℕ) (db' : Db) → update_peer db p now ≡ ok (q, db') → Inv db'
  unfolding update_peer
  update_peer-Inv p q now db' h =
      let (r, er, e1) = >>=-eq-ok (or_missing (row_by_id db.rows p.id)) _ h in
      let (u, eu, e2) = >>=-eq-ok (check_unique _) _ e1 in
      let (t, et, e3) = >>=-eq-ok (peer_by_id _ p.id) _ e2 in
      subst Inv (ok_state _ _ _ _ e3) (
        same_place-Inv p.id (updated_row p now)
          (λ x y h. record { ids = h.ids; keys = h.keys; addresses = h.addresses }) (λ x. refl)
          (λ x served. record { server = served.server; known = served.known; host = served.host }))

  -- SetPeerShare
  pub set_peer_share-Inv :
      (id : ℕ) (token : Text) (expires : Option ℕ) (q : Peer) (db' : Db)
      → set_peer_share db id token expires ≡ ok (q, db')
      → Inv db'
  unfolding set_peer_share
  set_peer_share-Inv id token expires q db' h =
      let (r, er, e1) = >>=-eq-ok (or_missing (row_by_id db.rows id)) _ h in
      elim (Bool-cases (token_clash db id token)) [
        | inl clash ↦ absurd (cc (rw clash at e1))
        | inr fine ↦
            let (t, et, e3) =
              >>=-eq-ok (peer_by_id (update_row (shared_row token expires) id db) id) _
                (rw fine at e1) in
            subst Inv (ok_state _ _ _ _ e3) (
              same_place-Inv id (shared_row token expires)
                (λ x y h. record { ids = h.ids; keys = h.keys; addresses = h.addresses })
                (λ x. refl)
                (λ x served. record {
                  server = served.server;
                  known = served.known;
                  host = served.host;
                }))
      ]

  drop_rows-Inv : (gone : ℕ → Bool) → Inv (drop_rows gone db)
  drop_rows-Inv gone = record {
    placed = v.placed;
    apart = All-select_apart _ db.rows v.apart;
    fresh = All-select (λ (r : Row). r.id < db.next_peer) _ db.rows v.fresh;
    served = All-select (IsServed db.instances) _ db.rows v.served;
  }

  -- DeletePeer
  pub delete_peer-Inv : (id : ℕ) (db' : Db) → delete_peer db id ≡ ok db' → Inv db'
  unfolding delete_peer
  delete_peer-Inv id db' h =
      let (r, er, e1) = >>=-eq-ok (or_missing (row_by_id db.rows id)) _ h in
      subst Inv (cc) (drop_rows-Inv (λ i. i == id))
