-- ===== src/Wg/Validate.antt =====
-- internal/wg/validate.go: the checks on servers and devices. netip.ParseAddr and json.Valid are
-- parameters, as tests.
pub mod Laws
pub mod Server
use Prim.Native.String.{String}
use tunploy.Common.{
  ℕ, zero, suc, ◌+◌, ◌-◌, ◌*◌, ◌/◌, ◌%◌, ◌^◌, ◌≤◌, ◌<◌, ◌≡◌, refl, sym, ap, ap₂, subst, ◌∙◌, ◌≢◌,
  ◌↔◌, ◌⊎◌, inl, inr, Bool, true, false, not, ◌&&◌, ◌||◌, Option, none, some, List, [], ◌∷◌, ◌++◌,
  map, append_assoc, append-nil, arith, ltb, leb, ◌==◌, if◌then◌else◌, ltb→lt, lt→ltb, leb→le,
  le→leb, ==_iff, ==_refl, tests, and_true, Bool-cases, Option-cases, is_some, length,
  length-append, replicate, is_empty, find, any, all, select, update_where, All, All-append,
  All-select, All-find, All-update_where, All-mono, mem, mem-append, eq_text, eq_text_refl,
  eq_text_sound, get_or, set, length-set, get_or-set_self,
}
use tunploy.Common.Int.{
  ℤ, pos, negsuc, pos_part, neg_part, sub_ℕ, ◌+ℤ◌, ◌-ℤ◌, ◌≤ℤ◌, ◌<ℤ◌, ltz, lez, eqz, from_bits64,
  wrap64, add64, sub64, wrap64_pos, add64_pos, sub64_pos, eqz→eq, eqz_refl,
}
use tunploy.Common.Text.{Text, codes, is_control, byte_len, trim_space, split_on}
use tunploy.Apperr.{Fields, Message, plain, format, addr, flag, set_field}
use tunploy.Wg.Net.{Addr, Prefix, is_valid_addr, is_valid, is4, contains, prefix_from}
use tunploy.Wg.Model.{Instance, Peer, Period, unset, monthly, total, other, is_valid_period}
use tunploy.Wg.Address.{is_host_address}

abbrev pub max_name_length : ℕ
max_name_length = 64

abbrev pub min_subnet_bits : ℕ
min_subnet_bits = 16

abbrev pub max_subnet_bits : ℕ
max_subnet_bits = 30

abbrev pub max_metadata_bytes : ℕ
max_metadata_bytes = 4096

abbrev pub max_speed_limit : ℕ
max_speed_limit = 10_000_000

-- The tests that decide each field; `true` is a fault.
abbrev pub outside : ℕ → ℕ → ℤ → Bool
outside lo hi z = ltz z (pos lo) || ltz (pos hi) z

abbrev pub valid_country : Text → Bool
valid_country (a ∷ b ∷ []) = leb b'A' a && leb a b'Z' && (leb b'A' b && leb b b'Z')
valid_country _ = false

abbrev is_label_rune : ℕ → Bool
is_label_rune c =
    leb b'a' c && leb c b'z' || leb b'A' c && leb c b'Z' || leb b'0' c && leb c b'9' || c == b'-'

abbrev last_or : Text → ℕ → ℕ
last_or [] d = d
last_or (c ∷ s) d = last_or s c

valid_label : Text → Bool
valid_label [] = false
valid_label (c ∷ s) =
    if ltb 63 (byte_len (c ∷ s)) || c == b'-' || last_or s c == b'-'
    then false
    else all is_label_rune (c ∷ s)

pub valid_host : (Text → Bool) → Text → Bool
unfolding valid_label split_on
valid_host is_ip host =
    if is_ip host
    then true
    else (if is_empty host || ltb 253 (byte_len host)
        then false
        else all valid_label (split_on b'.' host))

-- What `checkName` says; none is the empty message.
pub check_name : Text → Option String
check_name name =
    if is_empty (trim_space name)
    then some "name is required"
    else (if ltb max_name_length (length name)
        then some "name must be at most 64 characters"
        else (if any is_control name
            then some "name must not contain control characters"
            else none))

unfoldable pub flag_some : Option String → String → Fields → Fields
flag_some none k fs = fs
flag_some (some m) k fs = set_field k (plain m) fs

abbrev bits_outside : Option ℕ → Bool
bits_outside none = true
bits_outside (some b) = ltb b min_subnet_bits || ltb max_subnet_bits b

-- The cases of the switch on the address.
pub check_address : Prefix → Option String
check_address p =
    if not (is_valid p)
    then some "address is required"
    else (if not (is4 p.addr)
        then some "address must be an IPv4 address with a prefix, e.g. 10.8.0.1/24"
        else (if bits_outside p.bits
            then some "subnet must be between /16 and /30"
            else (if not (is_host_address p)
                then some
                    "address must be a host inside the subnet, not its network or broadcast address"
                else none)))

pub check_endpoint : (Text → Bool) → Text → Option String
check_endpoint is_ip host =
    if is_empty host
    then some "endpoint is required"
    else (if not (valid_host is_ip host)
        then some "endpoint must be a hostname or IP address, without a port"
        else none)

pub check_city : Text → Option String
check_city city =
    if ltb 64 (length city)
    then some "city must be at most 64 characters"
    else (if any is_control city then some "city must not contain control characters" else none)

abbrev pub server_unreachable : Instance → Bool
server_unreachable s =
    is_valid s.address && not (any (λ p. contains p s.address.addr) s.client_allowed_ips)

-- The block under `if in.DNSOnServer`.
unfoldable pub check_dns_on_server : Instance → Fields → Fields
check_dns_on_server s fs =
    if not s.dns_on_server
    then fs
    else (if is_empty s.dns
        then set_field "dns"
            (plain "the resolver on the server needs at least one DNS server to forward to") fs
        else flag (server_unreachable s) "client_allowed_ips"
            (format
              "client allowed IPs must include the server's address, %s, so clients reach its DNS"
              (addr s.address.addr ∷ []))
            fs)

-- Instance.Validate
pub validate_instance : (Text → Bool) → Instance → Fields
validate_instance is_ip s =
    let f1 = flag_some (check_name s.name) "name" [] in
    let f2 = flag_some (check_address s.address) "address" f1 in
    let f3 =
      flag (outside 1 65535 s.listen_port) "listen_port"
        (plain "listen port must be between 1 and 65535") f2 in
    let f4 = flag_some (check_endpoint is_ip s.endpoint) "endpoint" f3 in
    let f5 =
      flag (any (λ a. not (is_valid_addr a)) s.dns) "dns" (plain "dns contains an invalid address")
        f4 in
    let f6 = check_dns_on_server s f5 in
    let f7 =
      flag (not (eqz s.mtu (pos 0)) && outside 1280 1500 s.mtu) "mtu"
        (plain "mtu must be between 1280 and 1500, or 0 for the default") f6 in
    let f8 =
      flag (outside 0 65535 s.persistent_keepalive) "persistent_keepalive"
        (plain "persistent keepalive must be between 0 and 65535 seconds") f7 in
    let f9 =
      flag (is_empty s.client_allowed_ips) "client_allowed_ips"
        (plain "at least one allowed IP range is required") f8 in
    let f10 =
      flag (any (λ p. not (is_valid p)) s.client_allowed_ips) "client_allowed_ips"
        (plain "client allowed IPs contains an invalid range") f9 in
    let f11 =
      flag (not (is_empty s.country) && not (valid_country s.country)) "country"
        (plain "country must be a two-letter ISO 3166 code such as DE") f10 in
    flag_some (check_city s.city) "city" f11

abbrev pub is_set : Period → Bool
is_set unset = false
is_set monthly = true
is_set total = true
is_set (other s) = true

pub check_external_id : Text → Option String
check_external_id id =
    if ltb 255 (byte_len id)
    then some "external_id must be at most 255 bytes"
    else (if any is_control id
        then some "external_id must not contain control characters"
        else none)

-- bytes.HasPrefix(s, "{")
abbrev pub starts_with_brace : Text → Bool
starts_with_brace [] = false
starts_with_brace (c ∷ s) = c == b'{'

pub check_metadata : (Text → Bool) → Text → Option String
check_metadata is_json m =
    if is_empty m
    then none
    else (if ltb max_metadata_bytes (byte_len m)
        then some "metadata must be at most 4 KB"
        else (if not (is_json m) || not (starts_with_brace (trim_space m))
            then some "metadata must be a JSON object"
            else none))

-- Peer.Validate
pub validate_peer : (Text → Bool) → Peer → Fields
validate_peer is_json p =
    let f1 = flag_some (check_name p.name) "name" [] in
    let f2 =
      flag (ltz p.data_limit (pos 0)) "data_limit" (plain "data limit must be 0 (no limit) or more")
        f1 in
    let f3 =
      flag (outside 0 max_speed_limit p.speed_limit) "speed_limit"
        (plain "speed limit must be between 0 (no limit) and 10000000 kbit/s") f2 in
    let f4 =
      flag (is_set p.limit_period && not (is_valid_period p.limit_period)) "limit_period"
        (plain "limit_period must be monthly or total") f3 in
    let f5 = flag_some (check_external_id p.external_id) "external_id" f4 in
    flag_some (check_metadata is_json p.metadata) "metadata" f5
