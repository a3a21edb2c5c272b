-- ===== src/Store/Servers.antt =====
-- internal/store/wireguard.go: the queries on servers.
pub mod Invariant
use Prim.Native.String.{String}
use tunploy.Common.{
  ℕ, zero, suc, ◌+◌, ◌-◌, ◌*◌, ◌/◌, ◌%◌, ◌^◌, ◌≤◌, ◌<◌, ◌≡◌, refl, sym, ap, ap₂, subst, ◌∙◌, ◌≢◌,
  ◌↔◌, ◌⊎◌, inl, inr, Bool, true, false, not, ◌&&◌, ◌||◌, Option, none, some, List, [], ◌∷◌, ◌++◌,
  map, append_assoc, append-nil, arith, ltb, leb, ◌==◌, if◌then◌else◌, ltb→lt, lt→ltb, leb→le,
  le→leb, ==_iff, ==_refl, tests, and_true, Bool-cases, Option-cases, is_some, length,
  length-append, replicate, is_empty, find, any, all, select, update_where, All, All-append,
  All-select, All-find, All-update_where, All-mono, mem, mem-append, eq_text, eq_text_refl,
  eq_text_sound, get_or, set, length-set, get_or-set_self,
}
use tunploy.Common.Int.{
  ℤ, pos, negsuc, pos_part, neg_part, sub_ℕ, ◌+ℤ◌, ◌-ℤ◌, ◌≤ℤ◌, ◌<ℤ◌, ltz, lez, eqz, from_bits64,
  wrap64, add64, sub64, wrap64_pos, add64_pos, sub64_pos, eqz→eq, eqz_refl,
}
use tunploy.Common.Text.{Text}
use tunploy.Apperr.{Result, ok, err, missing, ◌>>=◌}
use tunploy.Wg.Model.{Instance}
use tunploy.Store.Tables.{Row, Db, to_second, same_name, instance_by_id}
use tunploy.Store.Peers.{or_missing, check_unique, drop_rows, on_instance}

abbrev instance_clash : (Instance → Bool) → List Instance → ℕ → Bool
instance_clash same instances id = any (λ s. not (s.id == id) && same s) instances

abbrev name_taken : List Instance → ℕ → Text → Bool
name_taken instances id name = instance_clash (λ s. same_name s.name name) instances id

-- Ports only clash on the same machine.
abbrev port_taken : List Instance → ℕ → ℕ → ℤ → Bool
port_taken instances id node_id port =
    instance_clash (λ s. s.node_id == node_id && eqz s.listen_port port) instances id

abbrev pub stored_instance : Db → Instance → ℕ → Instance
stored_instance db s now = record s {
  id = db.next_instance;
  created_at = to_second now;
  updated_at = to_second now;
}

-- CreateInstance
pub create_instance : Db → Instance → ℕ → Result (Instance × Db)
create_instance db s now =
    check_unique (
      (name_taken db.instances db.next_instance s.name, "name")
      ∷ (port_taken db.instances db.next_instance s.node_id s.listen_port, "listen_port")
      ∷ [])
    >>= λ _.
        (let s' = stored_instance db s now in
          ok (
            s',
            record db { instances = db.instances ++ s' ∷ []; next_instance = suc db.next_instance },
          ))

-- Instances
abbrev pub all_instances : Db → List Instance
all_instances db = db.instances

-- InstanceByID
abbrev pub load_instance : Db → ℕ → Result Instance
load_instance db id = or_missing (instance_by_id db.instances id)

-- The row after UpdateInstance: address, keys and machine stay.
abbrev pub updated_instance : Instance → ℕ → Instance → Instance
updated_instance s now old = record old {
  name = s.name;
  listen_port = s.listen_port;
  endpoint = s.endpoint;
  dns = s.dns;
  dns_on_server = s.dns_on_server;
  mtu = s.mtu;
  persistent_keepalive = s.persistent_keepalive;
  client_allowed_ips = s.client_allowed_ips;
  country = s.country;
  city = s.city;
  updated_at = to_second now;
}

abbrev pub after_update : Db → Instance → ℕ → Db
after_update db s now = record db {
  instances = update_where (λ t. t.id == s.id) (updated_instance s now) db.instances;
}

-- UpdateInstance
pub update_instance : Db → Instance → ℕ → Result (Instance × Db)
update_instance db s now = or_missing (instance_by_id db.instances s.id) >>= λ old.
    check_unique (
      (name_taken db.instances s.id s.name, "name")
      ∷ (port_taken db.instances s.id old.node_id s.listen_port, "listen_port")
      ∷ [])
    >>= λ _. load_instance (after_update db s now) s.id >>= λ t. ok (t, after_update db s now)

-- The IDs of one server's devices.
abbrev pub is_of : List Row → ℕ → ℕ → Bool
is_of rows instance_id id = any (λ (r : Row). r.id == id && on_instance instance_id r) rows

abbrev pub after_delete : Db → ℕ → Db
after_delete db id = record db {
  instances = select (λ s. not (s.id == id)) db.instances;
  rows = select (λ (r : Row). not (on_instance id r)) db.rows;
  counters = select (λ c. not (is_of db.rows id c.peer_id)) db.counters;
  usage = select (λ u. not (is_of db.rows id u.peer_id)) db.usage;
}

-- DeleteInstance, with the devices, counters and usage that go with it.
unfoldable pub delete_instance : Db → ℕ → Result Db
delete_instance db id = or_missing (instance_by_id db.instances id) >>= λ _. ok (after_delete db id)
