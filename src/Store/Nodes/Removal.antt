-- ===== src/Store/Nodes/Removal.antt =====
-- What goes with a node that is deleted.
use tunploy.Common.{
  ℕ, ◌≡◌, refl, inl, inr, Bool, true, false, not, ◌||◌, none, some, List, [], ◌∷◌, arith, ◌==◌,
  ==_refl, Bool-cases, any, select, All, All-mono,
}
use tunploy.Apperr.{missing, ok, err}
use tunploy.Wg.Model.{Instance}
use tunploy.Store.Tables.{Row, Db}
use tunploy.Store.Peers.{on_instance}
use tunploy.Store.Servers.{after_delete}
use tunploy.Store.Nodes.{Node, Nodes, node_of, node_by_id, delete_all, delete_node}

-- A device whose server is there.
abbrev pub HasServer : List Instance → Row → Type 0
HasServer instances r = any (λ (s : Instance). s.id == r.instance_id) instances ≡ true

any-select :
    (id gone : ℕ) (ss : List Instance)
    → (id == gone) ≡ false
    → any (λ (s : Instance). s.id == id) ss ≡ true
    → any (λ (s : Instance). s.id == id) (select (λ s. not (s.id == gone)) ss) ≡ true
any-select id gone [] n h = h
any-select id gone (s ∷ ss) n h = elim (Bool-cases (s.id == gone)) [
  | inl dropped ↦
      let other : (s.id == id) ≡ false = ground arith in
      rw dropped (any-select id gone ss n (rw other at h))
  | inr kept ↦ elim (Bool-cases (s.id == id)) [
    | inl here ↦ rw (kept, here) refl
    | inr other ↦ rw (kept, other) (any-select id gone ss n (rw other at h))
  ]
]

rows-HasServer :
    (instances : List Instance) (id : ℕ) (rs : List Row)
    → All (HasServer instances) rs
    → All
        (HasServer (select (λ s. not (s.id == id)) instances))
        (select (λ (r : Row). not (on_instance id r)) rs)
rows-HasServer instances id [] h = tt
rows-HasServer instances id (r ∷ rs) h = elim (Bool-cases (on_instance id r)) [
  | inl gone ↦ rw gone (rows-HasServer instances id rs h.1)
  | inr kept ↦
      rw kept (any-select r.instance_id id instances kept h.0, rows-HasServer instances id rs h.1)
]

delete_all-HasServer :
    (ss : List Instance) (db : Db)
    → All (HasServer db.instances) db.rows
    → All (HasServer (delete_all ss db).instances) (delete_all ss db).rows
delete_all-HasServer [] db h = h
delete_all-HasServer (s ∷ ss) db h =
    delete_all-HasServer ss (after_delete db s.id) (rows-HasServer db.instances s.id db.rows h)

-- What is left has a property if all that was there have it or are deleted.
left :
    (P : Instance → Type 0) (x : Instance) (ss is : List Instance)
    → All (λ s. any (λ (y : Instance). s.id == y.id) (x ∷ ss) ≡ false → P s) is
    → All
        (λ s. any (λ (y : Instance). s.id == y.id) ss ≡ false → P s)
        (select (λ s. not (s.id == x.id)) is)
left P x ss [] h = tt
left P x ss (s ∷ is) h = elim (Bool-cases (s.id == x.id)) [
  | inl gone ↦ rw gone (left P x ss is h.1)
  | inr kept ↦ rw kept ((λ n. h.0 (rw (kept, n) refl)), left P x ss is h.1)
]

delete_all-All :
    (P : Instance → Type 0) (ss : List Instance) (db : Db)
    → All (λ s. any (λ (x : Instance). s.id == x.id) ss ≡ false → P s) db.instances
    → All P (delete_all ss db).instances
delete_all-All P [] db h = All-mono _ P db.instances (λ s f. f refl) h
delete_all-All P (x ∷ ss) db h =
    delete_all-All P ss (after_delete db x.id) (left P x ss db.instances h)

or-true : (a b : Bool) → b ≡ true → (a || b) ≡ true
or-true a b h = ground arith

off-node : (on there : Bool) → (on ≡ true → there ≡ true) → there ≡ false → on ≡ false
off-node true there f n = absurd (cc (f refl))
off-node false there f n = refl

node-gone :
    (id : ℕ) (nodes : List Node) → node_of (select (λ (n : Node). not (n.id == id)) nodes) id ≡ none
node-gone id [] = refl
node-gone id (n ∷ nodes) = let rest = node-gone id nodes in ground arith

any-more :
    (id node : ℕ) (x : Instance) (is : List Instance)
    → any (λ (y : Instance). id == y.id) (select (λ (y : Instance). y.node_id == node) is) ≡ true
    → any (λ (y : Instance). id == y.id) (select (λ (y : Instance). y.node_id == node) (x ∷ is))
      ≡ true
any-more id node x is h = elim (Bool-cases (x.node_id == node)) [
  | inl on ↦ rw on (or-true (id == x.id) _ h)
  | inr off ↦ rw off h
]

-- The servers of a node are among those that are deleted with it.
among :
    (node : ℕ) (is : List Instance)
    → All
        (λ (s : Instance).
          (s.node_id == node) ≡ true
          → any (λ (y : Instance). s.id == y.id) (select (λ (y : Instance). y.node_id == node) is)
            ≡ true)
        is
among node [] = tt
among node (x ∷ is) = (
  (λ on. rw (on, ==_refl x.id) refl),
  All-mono _ _ is (λ s f on. any-more s.id node x is (f on)) (among node is),
)

-- Deleting a node that is known takes its row, and leaves no server on it and no device without a
-- server, if there was none before. A node that is not known cannot be deleted.
pub delete_node-clears :
    (t : Nodes) (db : Db) (id : ℕ)
    → All (HasServer db.instances) db.rows
    → (node_of t.nodes id ≡ none → delete_node t db id ≡ err missing)
      × ((n : Node)
          → node_of t.nodes id ≡ some n
          → (t' : Nodes) × (db' : Db) × (delete_node t db id ≡ ok (t', db'))
            × (node_by_id t' id ≡ err missing)
            × All (λ (s : Instance). (s.node_id == id) ≡ false) db'.instances
            × All (HasServer db'.instances) db'.rows)
unfolding delete_node node_by_id
delete_node-clears t db id h = (
  (λ none_there. rw none_there refl),
  (λ n there. (
    record t { nodes = select (λ (n : Node). not (n.id == id)) t.nodes },
    delete_all (select (λ (s : Instance). s.node_id == id) db.instances) db,
    rw there refl,
    rw (node-gone id t.nodes) refl,
    delete_all-All (λ (s : Instance). (s.node_id == id) ≡ false)
        (select (λ (s : Instance). s.node_id == id) db.instances) db
        (All-mono _ _ db.instances (λ s f n. off-node (s.node_id == id) _ f n)
          (among id db.instances)),
    delete_all-HasServer (select (λ (s : Instance). s.node_id == id) db.instances) db h,
  )),
)
