-- ===== src/Servers/Requests.antt =====
-- internal/instance/place.go and instance.go: what a new server starts from, and what is asked for.
use tunploy.Common.{
  ℕ, Bool, true, false, not, ◌||◌, Option, none, some, List, [], ◌∷◌, ◌==◌, if◌then◌else◌, is_some,
  is_empty,
}
use tunploy.Common.Int.{pos}
use tunploy.Common.Text.{Text}
use tunploy.Apperr.{
  Result, ok, err, Error, app, missing, plain, format, text, prefix, Fields, set_field, flag,
  not_found,
}
use tunploy.Common.Show.{int_text}
use tunploy.Wg.Net.{Addr, Prefix}
use tunploy.Wg.Model.{Instance, new_instance, default_address, subnet}
use tunploy.Wg.Address.{capacity}
use tunploy.Wg.Validate.{valid_host, min_subnet_bits}
use tunploy.Placement.{overlapping, next_free_subnet, next_free_port, subnet_bits_for}
use tunploy.Store.Nodes.{Node, node_of}
use tunploy.Servers.{Change, Outside, Defaults, given, applied, unparsed}

module _ (out : Outside) where
  abbrev first_country : List Text → Text
  first_country [] = []
  first_country (a ∷ more) =
      let rest = first_country more in
      elim (out.parse_addr a) [
        | none ↦ rest
        | some x ↦ if is_empty (out.country_of x) then rest else out.country_of x
      ]

  -- Service.country
  country_at : Text → Text
  country_at host = elim (out.parse_addr host) [
    | some a ↦ out.country_of a
    | none ↦
        if not out.has_geo || not (valid_host (λ t. is_some (out.parse_addr t)) host)
        then []
        else elim (out.lookup host) [ none ↦ [] | some found ↦ first_country found ]
  ]

  abbrev own_host : Defaults → Text
  own_host d = if is_empty d.host then out.public_host else d.host

  abbrev endpoint_on : List Node → ℕ → Defaults → Result Text
  endpoint_on nodes node d =
      if node == 0
      then ok (own_host d)
      else elim (node_of nodes node) [ none ↦ err missing | some n ↦ ok n.host ]

  abbrev bits_of : Prefix → ℕ
  bits_of p = given p.bits 0

  abbrev fresh_server : List Instance → ℕ → List Addr → Text → ℕ → Instance
  fresh_server existing node dns endpoint seed =
      record (new_instance out.public_of [] endpoint (out.random seed)) {
        node_id = node;
        address = next_free_subnet existing (bits_of default_address);
        listen_port = pos (next_free_port existing node);
        dns = dns;
      }

  -- Service.defaults; the seed stands for the random bytes that are next.
  pub defaults : List Instance → List Node → ℕ → Defaults → ℕ → Result Instance
  defaults existing nodes node d seed = elim (endpoint_on nodes node d) [
    | err e ↦ err e
    | ok endpoint ↦ ok (fresh_server existing node d.dns endpoint seed)
  ]

  abbrev sized : List Instance → Option (ℕ × Bool) → Instance → Instance
  sized existing none s = s
  sized existing (some (bits, false)) s = s
  sized existing (some (bits, true)) s = record s { address = next_free_subnet existing bits }

  abbrev fits : Option (ℕ × Bool) → Bool
  fits none = false
  fits (some (bits, fine)) = fine

  -- The switch on MaxDevices
  abbrev with_size : List Instance → Change → Instance → Instance
  with_size existing c s = elim c.max_devices [
    | none ↦ s
    | some n ↦ if is_some c.address then s else sized existing (subnet_bits_for n) s
  ]

  abbrev size_fields : Change → Fields → Fields
  size_fields c fs = elim c.max_devices [
    | none ↦ fs
    | some n ↦
        if is_some c.address
        then set_field "max_devices" (plain "send address or max_devices, not both") fs
        else flag (not (fits (subnet_bits_for n))) "max_devices"
            (format "max_devices must be between 1 and %d"
              (text (int_text (capacity min_subnet_bits)) ∷ []))
            fs
  ]

  abbrev overlap_fields : List Instance → Change → Instance → Fields → Fields
  overlap_fields existing c s fs =
      if is_some c.address
      then elim (overlapping existing s.address) [
        | none ↦ fs
        | some other ↦
            set_field "address"
              (format "subnet overlaps with %q (%s)" (text other.name ∷ prefix (subnet other) ∷ []))
              fs
      ]
      else fs

  -- The server that Create asks for, and what is wrong with it.
  pub requested : List Instance → Change → Instance → Instance
  requested existing c base =
      let s = applied out c base in
      with_size existing c
        (if is_some c.country then s else record s { country = country_at s.endpoint })

  pub create_fields : List Instance → Change → Instance → Fields
  create_fields existing c s = overlap_fields existing c s (size_fields c (unparsed out c))

  abbrev no_node : Error → Error
  no_node missing = app not_found "not_found" (plain "node not found") []
  no_node e = e

  -- Service.Defaults
  default_server : List Instance → List Node → ℕ → Defaults → ℕ → Result Instance
  default_server existing nodes node d seed = elim (defaults existing nodes node d seed) [
    | err e ↦ err (no_node e)
    | ok s ↦ ok (record s { country = country_at s.endpoint })
  ]
