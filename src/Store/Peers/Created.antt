-- ===== src/Store/Peers/Created.antt =====
-- When CreatePeer succeeds, and what MovePeer leaves alone.
use tunploy.Common.{
  ℕ, suc, ◌-◌, ◌%◌, ◌^◌, ◌<◌, ◌≡◌, refl, sym, subst, ◌≢◌, inl, inr, false, Option, none, some, List,
  [], ◌∷◌, ◌++◌, arith, ==_refl, Bool-cases, length, any, select, All,
}
use tunploy.Common.Int.{pos, ◌<ℤ◌}
use tunploy.Apperr.{ok}
use tunploy.Wg.Net.{Addr, invalid, ip4, ip6, eq_addr, eq_addr_sound}
use tunploy.Wg.Model.{Instance, Peer}
use tunploy.Wg.Address.{capacity}
use tunploy.Wg.Address.Capacity.{next_address-capacity}
use tunploy.Wg.Validate.Server.{IsServerAddress, IsWord}
use tunploy.Store.Tables.{Row, Db, instance_by_id, row_by_id}
use tunploy.Store.Peers.{
  on_instance, allocate, name_clash, address_clash, key_clash, check_unique, new_row, created,
  create_peer, peer_count, peer_addresses,
}
use tunploy.Store.Peers.Allocate.{IsHostAt, allocate-IsHostAt}
use tunploy.Store.Peers.Invariant.{Inv, not_taken}
use tunploy.Store.Peers.Keeps.{IsPlaced-of}

-- The devices of a server do not fill its subnet.
abbrev RoomAt : Option ℕ → ℕ → Type 0
RoomAt none n = ⊥
RoomAt (some b) n = pos n <ℤ capacity b

abbrev HasRoom : Instance → ℕ → Type 0
HasRoom s n = RoomAt s.address.bits n

length_addresses :
    (rs : List Row) (id : ℕ) → length (peer_addresses rs id) ≡ length (select (on_instance id) rs)
length_addresses [] id = refl
length_addresses (r ∷ rs) id = ground (arith, length_addresses rs id)

-- A free address breaks no index.
address_free :
    (rs : List Row) (id instance_id : ℕ) (a : Addr)
    → All (λ (r : Row). r.instance_id ≡ instance_id → r.address ≢ a) rs
    → address_clash rs id instance_id a ≡ false
address_free [] id instance_id a h = refl
address_free (r ∷ rs) id instance_id a h = elim (Bool-cases (eq_addr r.address a)) [
  | inl e ↦
      let away : ¬ (r.instance_id ≡ instance_id) = λ i. h.0 i (eq_addr_sound r.address a e) in
      ground (arith, address_free rs id instance_id a h.1)
  | inr e ↦ ground (arith, address_free rs id instance_id a h.1)
]

allocate_room :
    (rows : List Row) (s : Instance) (a : Addr) (bits : Option ℕ)
    → s.address ≡ record { addr = a; bits = bits }
    → IsServerAddress a bits
    → IsWord a
    → RoomAt bits (length (peer_addresses rows s.id))
    → (got : Addr) × (allocate rows s ≡ ok got)
unfolding allocate
allocate_room rows s (ip4 a) (some b) shape h w room =
    let (n, e) =
      next_address-capacity (ip4 a) (peer_addresses rows s.id) (a - a % 2 ^ (32 - b)) b h.1
        (omega arith) room in
    (ip4 n, simp (shape, e))
allocate_room rows s (ip4 a) none shape h w room = absurd h
allocate_room rows s (ip6 a) none shape h w room = absurd h
allocate_room rows s invalid none shape h w room = absurd h
allocate_room rows s (ip6 a) (some b) shape h w room = absurd h
allocate_room rows s invalid (some b) shape h w room = absurd h

row_by_id-append :
    (rs : List Row) (r : Row)
    → All (λ (t : Row). t.id < r.id) rs
    → row_by_id (rs ++ r ∷ []) r.id ≡ some r
row_by_id-append [] r h = rw (==_refl r.id)
row_by_id-append (t ∷ rs) r h = ground (arith, row_by_id-append rs r h.1)

module _ (db : Db) (v : Inv db) (p : Peer) (now : ℕ) (s : Instance) where
  -- On a reachable database, CreatePeer for a known server succeeds if the server has fewer devices
  -- than its capacity, none of them has the name, and no device anywhere has the public key. The
  -- device gets a host address of the server's subnet, other than the server's, and is then found
  -- under its new ID.
  pub create_peer-succeeds :
      instance_by_id db.instances p.instance_id ≡ some s
      → HasRoom s (peer_count db p.instance_id)
      → name_clash db.rows db.next_peer p.instance_id p.name ≡ false
      → key_clash db.rows db.next_peer p.public_key ≡ false
      → (a : Addr) × (db' : Db) × (create_peer db p now ≡ ok (created db p a now, db'))
        × IsHostAt s.address.addr s.address.bits a
        × (row_by_id db'.rows db.next_peer ≡ some (new_row (created db p a now)))
  unfolding create_peer check_unique
  create_peer-succeeds known room name key =
      let (placed, same) = IsPlaced-of db v p.instance_id s known in
      let count = length_addresses db.rows p.instance_id in
      let (a, e) =
        allocate_room db.rows s s.address.addr s.address.bits refl placed.address placed.word (
          subst (λ (i : ℕ). RoomAt s.address.bits (length (peer_addresses db.rows i))) (sym same)
            (subst (RoomAt s.address.bits) (sym count) room)) in
      let (host, free) = allocate-IsHostAt db.rows s a placed e in
      let address = address_free db.rows db.next_peer p.instance_id a (
        not_taken db.rows p.instance_id a
          (subst (λ i. any (eq_addr a) (peer_addresses db.rows i) ≡ false) same free)) in
      (
        a,
        record db {
          rows = db.rows ++ new_row (created db p a now) ∷ [];
          next_peer = suc db.next_peer;
        },
        rw (known, e, name, address, key),
        host,
        row_by_id-append db.rows (new_row (created db p a now)) v.fresh,
      )
