-- ===== src/Store/Peers/Invariant.antt =====
-- Devices never share an ID, a public key or, on one server, an address; each has an address that
-- its server can serve. Every query on devices keeps that.
use tunploy.Common.{
  ℕ, ◌<◌, ◌≡◌, sym, ◌∙◌, ◌≢◌, inl, inr, Bool, true, false, some, List, [], ◌∷◌, ◌++◌, arith, ◌==◌,
  Bool-cases, any, select, update_where, All, All-append, All-select,
}
use tunploy.Wg.Net.{Addr, eq_addr, eq_addr_refl}
use tunploy.Wg.Model.{Instance}
use tunploy.Store.Tables.{Row, Db, instance_by_id}
use tunploy.Store.Peers.{peer_addresses, clash}
use tunploy.Store.Peers.Allocate.{IsHostAt, IsPlaced}

-- Two devices that can live side by side.
pub record Apart (r s : Row) : Type 0 where
  pub ids : r.id ≢ s.id
  pub keys : r.public_key ≢ s.public_key
  pub addresses : r.instance_id ≡ s.instance_id → r.address ≢ s.address

abbrev pub AllApart : List Row → Type 0
AllApart [] = Unit {0}
AllApart (r ∷ rs) = All (Apart r) rs × AllApart rs

-- The device's server exists and can serve its address.
pub record IsServed (instances : List Instance) (r : Row) : Type 0 where
  pub server : Instance
  pub known : instance_by_id instances r.instance_id ≡ some server
  pub host : IsHostAt server.address.addr server.address.bits r.address

pub record Inv (db : Db) : Type 0 where
  pub placed : All IsPlaced db.instances
  pub apart : AllApart db.rows
  pub fresh : All (λ (r : Row). r.id < db.next_peer) db.rows
  pub served : All (IsServed db.instances) db.rows

pub AllApart-append :
    (rs : List Row) (r : Row) → AllApart rs → All (λ s. Apart s r) rs → AllApart (rs ++ r ∷ [])
AllApart-append [] r h k = (tt, tt)
AllApart-append (s ∷ rs) r h k =
    (All-append (Apart s) rs (r ∷ []) h.0 (k.0, tt), AllApart-append rs r h.1 k.1)

-- What `clash` finds nowhere holds of no row with another ID.
pub not_clash :
    (same : Row → Bool) (rs : List Row) (id : ℕ)
    → clash same rs id ≡ false
    → All (λ r. r.id ≢ id → same r ≡ false) rs
not_clash same [] id h = tt
not_clash same (r ∷ rs) id h = ((λ n. ground arith), not_clash same rs id (ground arith))

-- A free address is not that of a row on the server.
pub not_taken :
    (rs : List Row) (instance_id : ℕ) (a : Addr)
    → any (eq_addr a) (peer_addresses rs instance_id) ≡ false
    → All (λ r. r.instance_id ≡ instance_id → r.address ≢ a) rs
not_taken [] instance_id a h = tt
not_taken (r ∷ rs) instance_id a h = elim (Bool-cases (r.instance_id == instance_id)) [
  | inl here ↦ (
    (λ e q. let same : eq_addr a r.address ≡ true = cc (eq_addr_refl a) in absurd (ground arith)),
    not_taken rs instance_id a (ground arith),
  )
  | inr away ↦ ((λ e. absurd (ground arith)), not_taken rs instance_id a (ground arith))
]

Apart-symm : (r s : Row) → Apart r s → Apart s r
Apart-symm r s h = record {
  ids = λ e. h.ids (sym e);
  keys = λ e. h.keys (sym e);
  addresses = λ e q. h.addresses (sym e) (sym q);
}

-- An UPDATE of one row keeps the rows apart, if the row stays apart from the others.
module _ (k : ℕ) (f : Row → Row) (Q : Row → Type 0)
    (keep : (r s : Row) → r.id ≡ k → s.id ≢ k → Q s → Apart r s → Apart (f r) s) where
  update_others :
      (x : Row) (rs : List Row)
      → x.id ≢ k
      → Q x
      → All (Apart x) rs
      → All (Apart x) (update_where (λ r. r.id == k) f rs)
  update_others x [] n q h = tt
  update_others x (r ∷ rs) n q h = elim (Bool-cases (r.id == k)) [
    | inl e ↦ simp e (
      Apart-symm (f r) x (keep r x (ground arith) n q (Apart-symm x r h.0)),
      update_others x rs n q h.1,
    )
    | inr e ↦ simp e (h.0, update_others x rs n q h.1)
  ]

  update_self :
      (x : Row) (rs : List Row)
      → x.id ≡ k
      → All Q rs
      → All (Apart x) rs
      → All (Apart (f x)) (update_where (λ r. r.id == k) f rs)
  update_self x [] e q h = tt
  update_self x (r ∷ rs) e q h =
      let other : r.id ≢ k = λ d. h.0.ids (e ∙ sym d) in
      let test : (r.id == k) ≡ false = ground arith in
      simp test (keep x r e other q.0 h.0, update_self x rs e q.1 h.1)

  pub AllApart-update :
      (rs : List Row) → All Q rs → AllApart rs → AllApart (update_where (λ r. r.id == k) f rs)
  AllApart-update [] q h = tt
  AllApart-update (r ∷ rs) q h = elim (Bool-cases (r.id == k)) [
    | inl e ↦ simp e (update_self r rs (ground arith) q.1 h.0, AllApart-update rs q.1 h.1)
    | inr e ↦ simp e (update_others r rs (ground arith) q.0 h.0, AllApart-update rs q.1 h.1)
  ]

pub All-select_apart : (p : Row → Bool) (rs : List Row) → AllApart rs → AllApart (select p rs)
All-select_apart p [] h = tt
All-select_apart p (r ∷ rs) h = elim (Bool-cases (p r)) [
  | inl e ↦ simp e (All-select (Apart r) p rs h.0, All-select_apart p rs h.1)
  | inr e ↦ simp e (All-select_apart p rs h.1)
]
