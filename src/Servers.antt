-- ===== src/Servers.antt =====
-- internal/instance/change.go and place.go: what a command on a server asks for.
pub mod Requests
pub mod Settings
pub mod Saved
pub mod Commands
pub mod Creation
mod Tests
use Prim.Native.String.{String}
use package.text.Mathlib.Text.{◌==◌ as str_eq}
use tunploy.Common.{
  ℕ, zero, suc, ◌+◌, ◌-◌, ◌*◌, ◌/◌, ◌%◌, ◌^◌, ◌≤◌, ◌<◌, ◌≡◌, refl, sym, ap, ap₂, subst, ◌∙◌, ◌≢◌,
  ◌↔◌, ◌⊎◌, inl, inr, Bool, true, false, not, ◌&&◌, ◌||◌, Option, none, some, List, [], ◌∷◌, ◌++◌,
  map, append_assoc, append-nil, arith, ltb, leb, ◌==◌, if◌then◌else◌, ltb→lt, lt→ltb, leb→le,
  le→leb, ==_iff, ==_refl, tests, and_true, Bool-cases, Option-cases, is_some, length,
  length-append, replicate, is_empty, find, any, all, select, update_where, All, All-append,
  All-select, All-find, All-update_where, All-mono, mem, mem-append, eq_text, eq_text_refl,
  eq_text_sound, get_or, set, length-set, get_or-set_self,
}
use tunploy.Common.Int.{
  ℤ, pos, negsuc, pos_part, neg_part, sub_ℕ, ◌+ℤ◌, ◌-ℤ◌, ◌≤ℤ◌, ◌<ℤ◌, ltz, lez, eqz, from_bits64,
  wrap64, add64, sub64, wrap64_pos, add64_pos, sub64_pos, eqz→eq, eqz_refl,
}
use tunploy.Common.Text.{Text, codes, trim_space}
use tunploy.Apperr.{
  Result, ok, err, Error, app, wrap, joined, missing, offline, docker_unavailable, Message, plain,
  format, cause, text, prefix, Fields, set_field, flag, copy_fields, fields_error, field_error,
  as_duplicate, upstream, not_found, unavailable,
}
use tunploy.Common.Show.{int_text}
use tunploy.Wg.Net.{Addr, Prefix, eq_addr}
use tunploy.Wg.Model.{Instance, Key, new_instance, default_address, subnet}
use tunploy.Wg.Address.{capacity}
use tunploy.Wg.Validate.{validate_instance, valid_host, min_subnet_bits}
use tunploy.Event.{Event, for_instance}
use tunploy.Placement.{overlapping, next_free_subnet, next_free_port, subnet_bits_for}
use tunploy.Store.Tables.{Db, instance_by_id}
use tunploy.Store.Servers.{
  create_instance, update_instance, delete_instance, load_instance, all_instances,
}
use tunploy.Store.Nodes.{Node, node_of}
use tunploy.Deploy.{
  Manager, Env, M, ◌>>=◌, ◌>>◌, pure, fail, lift, state, change, read_clock, add_event,
}
use tunploy.Deploy.Containers.{
  attempt, deploy_by_id, redeploy, start, stop, restart, remove, apply_by_id,
}

-- Change: an update touches only what it sends.
pub record Change : Type 0 where
  pub node_id : Option ℕ
  pub name : Option Text
  pub address : Option Text
  pub listen_port : Option ℤ
  pub endpoint : Option Text
  pub dns : Option (List Text)
  pub dns_on_server : Option Bool
  pub mtu : Option ℤ
  pub persistent_keepalive : Option ℤ
  pub client_allowed_ips : Option (List Text)
  pub country : Option Text
  pub city : Option Text
  pub max_devices : Option ℤ

-- What comes from libraries and from outside: the parsers of net/netip, Unicode upper case, X25519 and
-- random bytes, the countries of addresses, the lookup of names and the panel's own host.
pub record Outside : Type 0 where
  pub parse_prefix : Text → Option Prefix
  pub parse_addr : Text → Option Addr
  pub upper : Text → Text
  pub public_of : Key → Key
  pub random : ℕ → List ℕ
  pub country_of : Addr → Text
  pub has_geo : Bool
  pub lookup : Text → Option (List Text)
  pub public_host : Text

-- Settings, as internal/instance/settings.go reads them.
pub record Defaults : Type 0 where
  pub host : Text
  pub dns : List Addr

abbrev pub given {ℓ} : {A : Type ℓ} → Option A → A → A
given none old = old
given (some a) old = a

abbrev trimmed : Option Text → Text → Text
trimmed none old = old
trimmed (some s) old = trim_space s

abbrev is_empty_option {ℓ} : {A : Type ℓ} → Option A → Bool
is_empty_option none = true
is_empty_option (some a) = false

abbrev cons_parsed {ℓ} : {A : Type ℓ} → Option A → Option (List A) → Option (List A)
cons_parsed none rest = none
cons_parsed (some a) none = none
cons_parsed (some a) (some rest) = some (a ∷ rest)

-- parseEach
abbrev parse_each {ℓ} : {A : Type ℓ} → (Text → Option A) → List Text → Option (List A)
parse_each parse [] = some []
parse_each parse (s ∷ ss) = cons_parsed (parse (trim_space s)) (parse_each parse ss)

-- What a field that was sent reads as; a list that does not parse leaves none.
abbrev parsed_list {ℓ} : {A : Type ℓ} → (Text → Option A) → Option (List Text) → List A → List A
parsed_list parse none old = old
parsed_list parse (some ss) old = given (parse_each parse ss) []

abbrev bad_list {ℓ} : {A : Type ℓ} → (Text → Option A) → Option (List Text) → Bool
bad_list parse none = false
bad_list parse (some ss) = is_empty_option (parse_each parse ss)

abbrev zero_prefix : Prefix
zero_prefix = record { addr = Addr.invalid; bits = none }

abbrev parsed_address : (Text → Option Prefix) → Option Text → Prefix → Prefix
parsed_address parse none old = old
parsed_address parse (some s) old = given (parse (trim_space s)) zero_prefix

abbrev bad_address : (Text → Option Prefix) → Option Text → Bool
bad_address parse none = false
bad_address parse (some s) = is_empty_option (parse (trim_space s))

module _ (out : Outside) where
  -- Change.apply: the server after it, and the fields that did not parse.
  abbrev pub applied : Change → Instance → Instance
  applied c s = record s {
    name = trimmed c.name s.name;
    address = parsed_address out.parse_prefix c.address s.address;
    listen_port = given c.listen_port s.listen_port;
    endpoint = trimmed c.endpoint s.endpoint;
    dns = parsed_list out.parse_addr c.dns s.dns;
    dns_on_server = given c.dns_on_server s.dns_on_server;
    mtu = given c.mtu s.mtu;
    persistent_keepalive = given c.persistent_keepalive s.persistent_keepalive;
    client_allowed_ips = parsed_list out.parse_prefix c.client_allowed_ips s.client_allowed_ips;
    country = elim c.country [ none ↦ s.country | some t ↦ out.upper (trim_space t) ];
    city = trimmed c.city s.city;
  }

  abbrev pub unparsed : Change → Fields
  unparsed c =
      flag (bad_list out.parse_prefix c.client_allowed_ips) "client_allowed_ips"
        (plain "client allowed IPs must be a list of CIDR ranges")
        (flag (bad_list out.parse_addr c.dns) "dns" (plain "dns must be a list of IP addresses") (
          flag (bad_address out.parse_prefix c.address) "address"
            (plain "address must look like 10.8.0.1/24") []))

  abbrev pub is_ip : Text → Bool
  is_ip t = is_some (out.parse_addr t)

  abbrev pub node_error : Error → Error
  node_error missing = field_error "node_id" (plain "no such node")
  node_error e = e

  abbrev pub on_error {ℓ} : {A : Type ℓ} → (Error → Error) → Result A → Result A
  on_error f (err e) = err (f e)
  on_error f (ok a) = ok a

  abbrev rewritten : Error → Option String → Error
  rewritten e none = e
  rewritten e (some column) =
      if str_eq column "name"
      then field_error "name" (plain "an instance with this name already exists")
      else (if str_eq column "listen_port"
          then field_error "listen_port"
              (plain "another server on this machine already uses this port")
          else e)

  -- writeError
  abbrev pub duplicate_error : Error → Error
  duplicate_error e = rewritten e (as_duplicate e)

  -- What the store makes of a command, as a step of the manager.
  abbrev pub stored {ℓ} : {A : Type ℓ} → Result (A × Db) → M A
  stored (err e) m = (err e, m)
  stored (ok (a, db)) m = (ok a, record m { db = db })

  -- apperr.Fields over what Validate says and the fields that are wrong otherwise.
  abbrev pub check : Instance → Fields → M (Unit {0})
  check s fs = lift (fields_error (copy_fields (copy_fields [] (validate_instance is_ip s)) fs))
