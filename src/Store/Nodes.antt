-- ===== src/Store/Nodes.antt =====
-- internal/store/nodes.go and settings.go: the machines that the panel reaches, and its settings.
pub mod Removal
use tunploy.Common.{
  ℕ, zero, suc, ◌+◌, ◌-◌, ◌*◌, ◌/◌, ◌%◌, ◌^◌, ◌≤◌, ◌<◌, ◌≡◌, refl, sym, ap, ap₂, subst, ◌∙◌, ◌≢◌,
  ◌↔◌, ◌⊎◌, inl, inr, Bool, true, false, not, ◌&&◌, ◌||◌, Option, none, some, List, [], ◌∷◌, ◌++◌,
  map, append_assoc, append-nil, arith, ltb, leb, ◌==◌, if◌then◌else◌, ltb→lt, lt→ltb, leb→le,
  le→leb, ==_iff, ==_refl, tests, and_true, Bool-cases, Option-cases, is_some, length,
  length-append, replicate, is_empty, find, any, all, select, update_where, All, All-append,
  All-select, All-find, All-update_where, All-mono, mem, mem-append, eq_text, eq_text_refl,
  eq_text_sound, get_or, set, length-set, get_or-set_self,
}
use tunploy.Common.Int.{
  ℤ, pos, negsuc, pos_part, neg_part, sub_ℕ, ◌+ℤ◌, ◌-ℤ◌, ◌≤ℤ◌, ◌<ℤ◌, ltz, lez, eqz, from_bits64,
  wrap64, add64, sub64, wrap64_pos, add64_pos, sub64_pos, eqz→eq, eqz_refl,
}
use tunploy.Common.Text.{Text}
use tunploy.Apperr.{Result, ok, err, ◌>>=◌}
use tunploy.Wg.Model.{Instance}
use tunploy.Store.Tables.{Row, Db, to_second, same_name}
use tunploy.Store.Peers.{or_missing, check_unique}
use tunploy.Store.Servers.{after_delete}

-- Node
pub record Node : Type 0 where
  pub id : ℕ
  pub name : Text
  pub host : Text
  pub port : ℤ
  pub username : Text
  pub host_key : Text
  pub last_seen_at : Option ℕ
  pub created_at : ℕ
  pub updated_at : ℕ

pub record Nodes : Type 0 where
  pub nodes : List Node
  pub next_node : ℕ

abbrev pub node_of : List Node → ℕ → Option Node
node_of nodes id = find (λ (n : Node). n.id == id) nodes

abbrev node_name_taken : List Node → ℕ → Text → Bool
node_name_taken nodes id name = any (λ (n : Node). not (n.id == id) && same_name n.name name) nodes

abbrev host_taken : List Node → Text → ℤ → Bool
host_taken nodes host port = any (λ (n : Node). same_name n.host host && eqz n.port port) nodes

-- CreateNode
unfoldable create_node : Nodes → Node → ℕ → Result (Node × Nodes)
create_node t n now =
    check_unique (
      (node_name_taken t.nodes t.next_node n.name, "name")
      ∷ (host_taken t.nodes n.host n.port, "host")
      ∷ [])
    >>= λ _.
        (let n' : Node = record n {
          id = t.next_node;
          last_seen_at = some (to_second now);
          created_at = to_second now;
          updated_at = to_second now;
        } in
          ok (n', record t { nodes = t.nodes ++ n' ∷ []; next_node = suc t.next_node }))

-- Nodes
all_nodes : Nodes → List Node
all_nodes t = t.nodes

-- NodeByID
unfoldable pub node_by_id : Nodes → ℕ → Result Node
node_by_id t id = or_missing (node_of t.nodes id)

-- RenameNode
unfoldable rename_node : Nodes → ℕ → Text → ℕ → Result (Node × Nodes)
rename_node t id name now = or_missing (node_of t.nodes id) >>= λ _.
    check_unique ((node_name_taken t.nodes id name, "name") ∷ []) >>= λ _.
    (let t' : Nodes = record t {
      nodes =
          update_where (λ (n : Node). n.id == id)
            (λ n. record n { name = name; updated_at = to_second now }) t.nodes;
    } in
      node_by_id t' id >>= λ n. ok (n, t'))

-- TouchNode
touch_node : Nodes → ℕ → ℕ → Nodes
touch_node t id seen = record t {
  nodes =
      update_where (λ (n : Node). n.id == id)
        (λ n. record n { last_seen_at = some (to_second seen) }) t.nodes;
}

-- DELETE FROM wg_instances WHERE node_id = ?, with the devices that go with each server.
abbrev pub delete_all : List Instance → Db → Db
delete_all [] db = db
delete_all (s ∷ ss) db = delete_all ss (after_delete db s.id)

-- DeleteNode
unfoldable pub delete_node : Nodes → Db → ℕ → Result (Nodes × Db)
delete_node t db id = or_missing (node_of t.nodes id) >>= λ _. ok (
  record t { nodes = select (λ (n : Node). not (n.id == id)) t.nodes },
  delete_all (select (λ (s : Instance). s.node_id == id) db.instances) db,
)

-- Settings, a map from key to value.
abbrev pub Settings : Type 0
Settings = List (Text × Text)

abbrev pub setting_of : Settings → Text → Option Text
setting_of [] key = none
setting_of ((k, v) ∷ rest) key = if eq_text k key then some v else setting_of rest key

abbrev pub save_setting : Text → Text → Settings → Settings
save_setting key value [] = (key, value) ∷ []
save_setting key value ((k, v) ∷ rest) =
    if eq_text k key then (k, value) ∷ rest else (k, v) ∷ save_setting key value rest

-- SaveSettings
unfoldable pub save_settings : Settings → Settings → Settings
save_settings t [] = t
save_settings t ((k, v) ∷ rest) = save_settings (save_setting k v t) rest
