-- ===== src/Store/Peers/Keeps.antt =====
-- Each query on devices keeps the invariant.
use Prim.Native.String.{String}
use tunploy.Common.{
  ℕ, suc, ◌<◌, ◌≡◌, refl, sym, ap, subst, ◌∙◌, ◌≢◌, Bool, true, false, Option, none, some, List, [],
  ◌∷◌, ◌++◌, arith, ==_iff, find, any, All, All-append, All-find, All-mono, eq_text, eq_text_refl,
}
use tunploy.Apperr.{Result, ok, >>=-eq-ok}
use tunploy.Wg.Net.{Addr, eq_addr}
use tunploy.Wg.Model.{Instance, Peer}
use tunploy.Store.Tables.{Row, Db, instance_by_id}
use tunploy.Store.Peers.{
  peer_addresses, allocate, key_clash, check_unique, or_missing, new_row, created, create_peer,
}
use tunploy.Store.Peers.Allocate.{IsHostAt, IsPlaced, allocate-IsHostAt}
use tunploy.Store.Peers.Invariant.{Apart, IsServed, Inv, AllApart-append, not_clash, not_taken}

pub or_missing-eq-ok {ℓ} : {A : Type ℓ} (o : Option A) {a : A} → or_missing o ≡ ok a → o ≡ some a
or_missing-eq-ok none e = absurd (cc)
or_missing-eq-ok (some b) e = cc

check_unique-eq-ok :
    (b : Bool) (column : String) (more : List (Bool × String)) {u : Unit {0}}
    → check_unique ((b, column) ∷ more) ≡ ok u
    → (b ≡ false) × (check_unique more ≡ ok u)
unfolding check_unique
check_unique-eq-ok true column more e = absurd (cc)
check_unique-eq-ok false column more e = (refl, e)

find_test {ℓ} : {A : Type ℓ} (p : A → Bool) (xs : List A) (a : A) → find p xs ≡ some a → p a ≡ true
find_test p [] a e = absurd (cc)
find_test p (x ∷ xs) a e = ground (arith, find_test p xs a)

-- The database of a successful result.
pub ok_state {ℓ} :
    {A : Type ℓ} (a b : A) (d e : Db) → ◌≡◌ {A = Result (A × Db)} (ok (a, d)) (ok (b, e)) → d ≡ e
ok_state a b d e h = cc

-- A new row with a fresh ID, a key that clashes with no other and a free address.
new_row-Apart :
    (r : Row) (rs : List Row)
    → All (λ (t : Row). t.id < r.id) rs
    → All (λ (t : Row). t.id ≢ r.id → eq_text t.public_key r.public_key ≡ false) rs
    → All (λ (t : Row). t.instance_id ≡ r.instance_id → t.address ≢ r.address) rs
    → All (λ t. Apart t r) rs
new_row-Apart r [] f k a = tt
new_row-Apart r (t ∷ rs) f k a =
    let other : t.id ≢ r.id = omega (arith, f.0) in
    (
      record {
        ids = other;
        keys = λ e.
            let same : eq_text t.public_key r.public_key ≡ true =
              cc (e, eq_text_refl t.public_key) in
            cc (same, k.0 other);
        addresses = a.0;
      },
      new_row-Apart r rs f.1 k.1 a.1,
    )

module _ (db : Db) (v : Inv db) where
  insert-Inv :
      (r : Row)
      → r.id ≡ db.next_peer
      → key_clash db.rows db.next_peer r.public_key ≡ false
      → All (λ (t : Row). t.instance_id ≡ r.instance_id → t.address ≢ r.address) db.rows
      → IsServed db.instances r
      → Inv (record db { rows = db.rows ++ r ∷ []; next_peer = suc db.next_peer })
  insert-Inv r id key free served = record {
    placed = v.placed;
    apart = AllApart-append db.rows r v.apart (
        new_row-Apart r db.rows (subst (λ n. All (λ (t : Row). t.id < n) db.rows) (sym id) v.fresh)
          (subst
            (λ n. All (λ (t : Row). t.id ≢ n → eq_text t.public_key r.public_key ≡ false) db.rows)
            (sym id) (not_clash _ db.rows db.next_peer key))
          free);
    fresh =
        All-append _ db.rows (r ∷ [])
          (All-mono _ _ db.rows (λ (t : Row) l. omega (arith, l)) v.fresh) (omega (arith, id), tt);
    served = All-append (IsServed db.instances) db.rows (r ∷ []) v.served (served, tt);
  }

  pub IsPlaced-of :
      (id : ℕ) (s : Instance) → instance_by_id db.instances id ≡ some s → IsPlaced s × (s.id ≡ id)
  IsPlaced-of id s e = (
    (All-find IsPlaced _ db.instances s v.placed e).0,
    (==_iff s.id id).0 (find_test _ db.instances s e),
  )

  pub IsServed-of :
      (id : ℕ) (s : Instance) (a : Addr) (r : Row)
      → instance_by_id db.instances id ≡ some s
      → allocate db.rows s ≡ ok a
      → r.instance_id ≡ id
      → r.address ≡ a
      → IsServed db.instances r × All (λ (t : Row). t.instance_id ≡ id → t.address ≢ a) db.rows
  IsServed-of id s a r es ea ei er =
      let (placed, same) = IsPlaced-of id s es in
      let (host, free) = allocate-IsHostAt db.rows s a placed ea in
      (
        record {
          server = s;
          known = ap (instance_by_id db.instances) ei ∙ es;
          host = subst (IsHostAt s.address.addr s.address.bits) (sym er) host;
        },
        not_taken db.rows id a
            (subst (λ i. any (eq_addr a) (peer_addresses db.rows i) ≡ false) same free),
      )

  -- CreatePeer
  pub create_peer-Inv :
      (p q : Peer) (now : ℕ) (db' : Db) → create_peer db p now ≡ ok (q, db') → Inv db'
  unfolding create_peer
  create_peer-Inv p q now db' h =
      let (s, es, e1) = >>=-eq-ok (or_missing (instance_by_id db.instances p.instance_id)) _ h in
      let (a, ea, e2) = >>=-eq-ok (allocate db.rows s) _ e1 in
      let (u, eu, e3) = >>=-eq-ok (check_unique _) _ e2 in
      let (name, eu1) = check_unique-eq-ok _ _ _ eu in
      let (address, eu2) = check_unique-eq-ok _ _ _ eu1 in
      let (key, eu3) = check_unique-eq-ok _ _ _ eu2 in
      let (served, free) =
        IsServed-of p.instance_id s a (new_row (created db p a now)) (or_missing-eq-ok _ es) ea refl
          refl in
      subst Inv (ok_state _ _ _ _ e3)
        (insert-Inv (new_row (created db p a now)) refl key free served)
