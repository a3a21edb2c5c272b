-- ===== src/Store/Servers/Invariant.antt =====
-- The queries on servers keep the invariant of the devices.
use tunploy.Common.{
  ℕ, ◌<◌, ◌≡◌, refl, sym, ap, subst, ◌∙◌, ◌≢◌, inl, inr, Bool, true, false, not, some, List, [],
  ◌∷◌, ◌++◌, arith, ◌==◌, if◌then◌else◌, Bool-cases, select, update_where, All, All-append,
  All-select, All-update_where, All-mono,
}
use tunploy.Wg.Net.{Prefix}
use tunploy.Apperr.{ok, >>=-eq-ok}
use tunploy.Wg.Model.{Instance}
use tunploy.Store.Tables.{Row, Db, instance_by_id}
use tunploy.Store.Peers.{or_missing, check_unique, on_instance}
use tunploy.Store.Peers.Allocate.{IsPlaced, IsHostAt}
use tunploy.Store.Peers.Invariant.{IsServed, Inv, All-select_apart}
use tunploy.Store.Peers.Keeps.{ok_state}
use tunploy.Store.Servers.{
  stored_instance, create_instance, updated_instance, update_instance, delete_instance,
  load_instance, after_update, after_delete,
}

find_append :
    (xs ys : List Instance) (i : ℕ) (s : Instance)
    → instance_by_id xs i ≡ some s
    → instance_by_id (xs ++ ys) i ≡ some s
find_append [] ys i s h = absurd (cc)
find_append (x ∷ xs) ys i s h = ground (arith, find_append xs ys i s)

abbrev touched : ℕ → ℕ → Instance → Instance → Instance
touched k now t x = if x.id == k then updated_instance t now x else x

touched_same :
    (k now : ℕ) (t x : Instance)
    → ((touched k now t x).id ≡ x.id) × ((touched k now t x).address ≡ x.address)
touched_same k now t x = elim (Bool-cases (x.id == k)) [
  | inl e ↦ simp e (refl, refl)
  | inr e ↦ simp e (refl, refl)
]

-- A changed server is found under its ID, with its address.
find_updated :
    (xs : List Instance) (k i now : ℕ) (t s : Instance)
    → instance_by_id xs i ≡ some s
    → (s' : Instance) × (instance_by_id
          (update_where (λ x. x.id == k) (updated_instance t now) xs)
          i
        ≡ some s')
      × (s'.address ≡ s.address)
find_updated [] k i now t s h = absurd (cc)
find_updated (x ∷ xs) k i now t s h =
    let same = touched_same k now t x in
    elim (Bool-cases (x.id == i)) [
      | inl e ↦
          let here : ((touched k now t x).id == i) ≡ true = rw same.0 e in
          let x_is_s : x ≡ s = ground arith in
          (touched k now t x, simp here refl, same.1 ∙ ap (λ (y : Instance). y.address) x_is_s)
      | inr e ↦
          let away : ((touched k now t x).id == i) ≡ false = rw same.0 e in
          let later : instance_by_id xs i ≡ some s = ground arith in
          let (s', found, address) = find_updated xs k i now t s later in
          (s', simp away found, address)
    ]

find_selected :
    (xs : List Instance) (k i : ℕ) (s : Instance)
    → instance_by_id xs i ≡ some s
    → i ≢ k
    → instance_by_id (select (λ x. not (x.id == k)) xs) i ≡ some s
find_selected [] k i s h n = absurd (cc)
find_selected (x ∷ xs) k i s h n = ground (arith, find_selected xs k i s)

selected_test : (p : Row → Bool) (rs : List Row) → All (λ r. p r ≡ true) (select p rs)
selected_test p [] = tt
selected_test p (r ∷ rs) = ground (arith, selected_test p rs)

still-IsServed :
    (xs : List Instance) (id : ℕ) (rs : List Row)
    → All (IsServed xs) rs
    → All (λ (r : Row). not (on_instance id r) ≡ true) rs
    → All (IsServed (select (λ x. not (x.id == id)) xs)) rs
still-IsServed xs id [] h t = tt
still-IsServed xs id (r ∷ rs) h t = (
  record {
    server = h.0.server;
    known = find_selected xs id r.instance_id h.0.server h.0.known (ground arith);
    host = h.0.host;
  },
  still-IsServed xs id rs h.1 t.1,
)

module _ (db : Db) (v : Inv db) where
  -- CreateInstance, of a server that passed the checks
  pub create_instance-Inv :
      (s t : Instance) (now : ℕ) (db' : Db)
      → IsPlaced s
      → create_instance db s now ≡ ok (t, db')
      → Inv db'
  unfolding create_instance
  create_instance-Inv s t now db' placed h =
      let (u, eu, e1) = >>=-eq-ok (check_unique _) _ h in
      subst Inv (ok_state _ _ _ _ e1) (record {
        placed =
            All-append IsPlaced db.instances (stored_instance db s now ∷ []) v.placed
              (record { address = placed.address; word = placed.word }, tt);
        apart = v.apart;
        fresh = v.fresh;
        served =
            All-mono _ _ db.rows
              (λ r served. record {
                server = served.server;
                known = find_append db.instances _ r.instance_id served.server served.known;
                host = served.host;
              })
              v.served;
      })

  -- UpdateInstance
  pub update_instance-Inv :
      (s t : Instance) (now : ℕ) (db' : Db) → update_instance db s now ≡ ok (t, db') → Inv db'
  unfolding update_instance
  update_instance-Inv s t now db' h =
      let (old, eo, e1) = >>=-eq-ok (or_missing (instance_by_id db.instances s.id)) _ h in
      let (u, eu, e2) = >>=-eq-ok (check_unique _) _ e1 in
      let (t', et, e3) = >>=-eq-ok (load_instance (after_update db s now) s.id) _ e2 in
      subst Inv (ok_state _ _ _ _ e3) (record {
        placed =
            All-update_where IsPlaced _ (updated_instance s now) db.instances
              (λ x p. record { address = p.address; word = p.word }) v.placed;
        apart = v.apart;
        fresh = v.fresh;
        served =
            All-mono _ _ db.rows
              (λ r served.
                let (s', known, same) =
                  find_updated db.instances s.id r.instance_id now s served.server served.known in
                record {
                  server = s';
                  known = known;
                  host =
                      subst (λ (p : Prefix). IsHostAt p.addr p.bits r.address) (sym same)
                        served.host;
                })
              v.served;
      })

  -- DeleteInstance
  pub delete_instance-Inv : (id : ℕ) (db' : Db) → delete_instance db id ≡ ok db' → Inv db'
  unfolding delete_instance
  delete_instance-Inv id db' h =
      let (s, es, e1) = >>=-eq-ok (or_missing (instance_by_id db.instances id)) _ h in
      let kept : Row → Bool = λ r. not (on_instance id r) in
      subst Inv {x = after_delete db id} (cc) (record {
        placed = All-select IsPlaced _ db.instances v.placed;
        apart = All-select_apart kept db.rows v.apart;
        fresh = All-select (λ (r : Row). r.id < db.next_peer) kept db.rows v.fresh;
        served =
            still-IsServed db.instances id (select kept db.rows)
              (All-select (IsServed db.instances) kept db.rows v.served)
              (selected_test kept db.rows);
      })
