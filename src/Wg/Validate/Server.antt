-- ===== src/Wg/Validate/Server.antt =====
-- What passes the checks on a server.
use tunploy.Common.{
  ℕ, ◌-◌, ◌%◌, ◌^◌, ◌≤◌, ◌<◌, ◌≡◌, refl, ◌≢◌, ◌↔◌, ◌⊎◌, inl, inr, Bool, true, false, not, ◌&&◌,
  Option, none, some, [], ◌∷◌, arith, Bool-cases, length, is_empty, any,
}
use tunploy.Common.Int.{ℤ, pos, negsuc, ◌≤ℤ◌, eqz}
use tunploy.Wg.Model.{Instance}
use tunploy.Common.Text.{Text, is_control}
use tunploy.Wg.Net.{Addr, Prefix, ip4, invalid, ip6, is_valid_addr, is_valid, contains}
use tunploy.Wg.Address.{is_host_address}
use tunploy.Wg.Address.Bounds.{is_host_address_iff}
use tunploy.Apperr.{Fields, flag-nil, set_field-ne-nil}
use tunploy.Wg.Validate.Laws.{flag_some-nil, IsName, check_name_iff}
use tunploy.Wg.Validate.{
  outside, check_address, check_endpoint, check_city, check_dns_on_server, validate_instance,
  valid_host, valid_country, server_unreachable, min_subnet_bits, max_subnet_bits,
}

-- An IPv4 address in a subnet between /16 and /30 that is neither its network nor its broadcast
-- address.
abbrev pub IsServerAddress : Addr → Option ℕ → Type 0
IsServerAddress (ip4 a) (some b) =
    (min_subnet_bits ≤ b)
    × (b ≤ max_subnet_bits)
    × (0 < a % 2 ^ (32 - b))
    × (a % 2 ^ (32 - b) < 2 ^ (32 - b) - 1)
IsServerAddress _ _ = ⊥

-- The number of an IPv4 address is a uint32.
abbrev pub IsWord : Addr → Type 0
IsWord (ip4 a) = a < 2 ^ 32
IsWord invalid = Unit
IsWord (ip6 a) = Unit

check_address_iff :
    (a : Addr) (bits : Option ℕ)
    → IsWord a
    → (check_address (record { addr = a; bits = bits }) ≡ none) ↔ IsServerAddress a bits
unfolding check_address
check_address_iff invalid none w = (λ e. absurd (ground arith), λ h. absurd h)
check_address_iff invalid (some b) w = (λ e. absurd (ground arith), λ h. absurd h)
check_address_iff (ip6 a) none w = (λ e. absurd (ground arith), λ h. absurd h)
check_address_iff (ip6 a) (some b) w = (λ e. absurd (ground arith), λ h. absurd h)
check_address_iff (ip4 a) none w = (λ e. absurd (ground arith), λ h. absurd h)
check_address_iff (ip4 a) (some b) w = (
  λ e.
      let small : b ≤ 30 = ground arith in
      let host : is_host_address (record { addr = ip4 a; bits = some b }) ≡ true = ground arith in
      let inside = (is_host_address_iff a b small w).0 host in
      (ground arith, small, inside.0, inside.1),
  λ h. ground (arith, (is_host_address_iff a b h.1 w).1 (h.2, h.3)),
)

-- The fields of a server that can be saved.
pub record IsServer (is_ip : Text → Bool) (s : Instance) : Type 0 where
  pub name : IsName s.name
  pub address : IsServerAddress s.address.addr s.address.bits
  pub listen_port : (pos 1 ≤ℤ s.listen_port) × (s.listen_port ≤ℤ pos 65535)
  pub endpoint : (s.endpoint ≢ []) × (valid_host is_ip s.endpoint ≡ true)
  pub dns : any (λ a. not (is_valid_addr a)) s.dns ≡ false
  -- The resolver has a server to ask, and the clients' ranges cover the server.
  pub dns_on_server :
      s.dns_on_server ≡ true
      → (is_empty s.dns ≡ false)
        × (any (λ p. contains p s.address.addr) s.client_allowed_ips ≡ true)
  pub mtu : (s.mtu ≡ pos 0) ⊎ ((pos 1280 ≤ℤ s.mtu) × (s.mtu ≤ℤ pos 1500))
  pub keepalive : (pos 0 ≤ℤ s.persistent_keepalive) × (s.persistent_keepalive ≤ℤ pos 65535)
  pub has_ranges : is_empty s.client_allowed_ips ≡ false
  pub ranges : any (λ p. not (is_valid p)) s.client_allowed_ips ≡ false
  pub country : (s.country ≡ []) ⊎ (valid_country s.country ≡ true)
  pub city : (length s.city ≤ 64) × (any is_control s.city ≡ false)

check_dns_iff :
    (s : Instance) (fs : Fields)
    → (check_dns_on_server s fs ≡ []) ↔ (
        (s.dns_on_server ≡ true → (is_empty s.dns ≡ false) × (server_unreachable s ≡ false))
        × (fs ≡ []))
unfolding check_dns_on_server
check_dns_iff s fs = elim (Bool-cases s.dns_on_server) [
  | inr off ↦ (λ e. ((λ k. absurd (cc)), ground arith), λ h. ground (arith, h.1))
  | inl on ↦ elim (Bool-cases (is_empty s.dns)) [
    | inl none_given ↦ (
      λ e. absurd (set_field-ne-nil _ _ fs (rw (on, none_given) at e)),
      λ h. absurd (ground (arith, h.0 on)),
    )
    | inr given ↦ (
      λ e.
          let (reach, rest) = (flag-nil _ _ _ _).0 (rw (on, given) at e) in
          ((λ k. (given, reach)), rest),
      λ h. rw (on, given) ((flag-nil _ _ _ _).1 ((h.0 on).1, h.1)),
    )
  ]
]

mtu_iff :
    (z : ℤ)
    → ((not (eqz z (pos 0)) && outside 1280 1500 z) ≡ false)
      ↔ ((z ≡ pos 0) ⊎ ((pos 1280 ≤ℤ z) × (z ≤ℤ pos 1500)))
mtu_iff (pos n) = (λ e. ground arith, λ h. ground arith)
mtu_iff (negsuc n) = (λ e. ground arith, λ h. ground arith)

country_iff :
    (c : Text)
    → ((not (is_empty c) && not (valid_country c)) ≡ false) ↔ ((c ≡ []) ⊎ (valid_country c ≡ true))
country_iff [] = (λ e. inl refl, λ h. refl)
country_iff (x ∷ c) = (λ e. inr (ground arith), λ h. ground arith)

check_endpoint_iff :
    (is_ip : Text → Bool) (host : Text)
    → (check_endpoint is_ip host ≡ none) ↔ ((host ≢ []) × (valid_host is_ip host ≡ true))
unfolding check_endpoint
check_endpoint_iff is_ip [] = (λ e. absurd (cc), λ h. absurd (h.0 refl))
check_endpoint_iff is_ip (c ∷ host) = (λ e. (λ k. cc, ground arith), λ h. ground (arith, h.1))

address_valid : (p : Prefix) → check_address p ≡ none → is_valid p ≡ true
unfolding check_address
address_valid p e = ground arith

reachable :
    (s : Instance)
    → is_valid s.address ≡ true
    → (server_unreachable s ≡ false)
      ↔ (any (λ p. contains p s.address.addr) s.client_allowed_ips ≡ true)
reachable s v = (λ e. ground arith, λ e. ground arith)

module _ (is_ip : Text → Bool) (s : Instance) (word : IsWord s.address.addr) where
  validate_sound : validate_instance is_ip s ≡ [] → IsServer is_ip s
  unfolding validate_instance check_city
  validate_sound e =
      let (city, e11) = (flag_some-nil _ _ _).0 e in
      let (country, e10) = (flag-nil _ _ _ _).0 e11 in
      let (ranges, e9) = (flag-nil _ _ _ _).0 e10 in
      let (has_ranges, e8) = (flag-nil _ _ _ _).0 e9 in
      let (keepalive, e7) = (flag-nil _ _ _ _).0 e8 in
      let (mtu, e6) = (flag-nil _ _ _ _).0 e7 in
      let (resolver, e5) = (check_dns_iff s _).0 e6 in
      let (dns, e4) = (flag-nil _ _ _ _).0 e5 in
      let (endpoint, e3) = (flag_some-nil _ _ _).0 e4 in
      let (port, e2) = (flag-nil _ _ _ _).0 e3 in
      let (address, e1) = (flag_some-nil _ _ _).0 e2 in
      let (name, e0) = (flag_some-nil _ _ _).0 e1 in
      let valid = address_valid s.address address in
      record {
        name = (check_name_iff s.name).0 name;
        address = (check_address_iff s.address.addr s.address.bits word).0 address;
        listen_port = ground arith;
        endpoint = (check_endpoint_iff is_ip s.endpoint).0 endpoint;
        dns = dns;
        dns_on_server = λ on. ((resolver on).0, (reachable s valid).0 (resolver on).1);
        mtu = (mtu_iff s.mtu).0 mtu;
        keepalive = ground arith;
        has_ranges = has_ranges;
        ranges = ranges;
        country = (country_iff s.country).0 country;
        city = ground arith;
      }

  validate_complete : IsServer is_ip s → validate_instance is_ip s ≡ []
  unfolding validate_instance check_city
  validate_complete h =
      let address = (check_address_iff s.address.addr s.address.bits word).1 h.address in
      let valid = address_valid s.address address in
      let city : check_city s.city ≡ none = ground (arith, h.city) in
      let f1 = (flag_some-nil _ _ _).1 ((check_name_iff s.name).1 h.name, refl) in
      let f2 = (flag_some-nil _ _ _).1 (address, f1) in
      let f3 = (flag-nil _ _ _ _).1 (ground (arith, h.listen_port), f2) in
      let f4 = (flag_some-nil _ _ _).1 ((check_endpoint_iff is_ip s.endpoint).1 h.endpoint, f3) in
      let f5 = (flag-nil _ _ _ _).1 (h.dns, f4) in
      let f6 =
        (check_dns_iff s _).1
          ((λ on. ((h.dns_on_server on).0, (reachable s valid).1 (h.dns_on_server on).1)), f5) in
      let f7 = (flag-nil _ _ _ _).1 ((mtu_iff s.mtu).1 h.mtu, f6) in
      let f8 = (flag-nil _ _ _ _).1 (ground (arith, h.keepalive), f7) in
      let f9 = (flag-nil _ _ _ _).1 (h.has_ranges, f8) in
      let f10 = (flag-nil _ _ _ _).1 (h.ranges, f9) in
      let f11 = (flag-nil _ _ _ _).1 ((country_iff s.country).1 h.country, f10) in
      (flag_some-nil _ _ _).1 (city, f11)

-- A server whose address, if it is IPv4, is a uint32 passes Instance.Validate, for any test of IP
-- addresses, exactly when: its name is one; its address is a host of an IPv4 subnet between /16 and
-- /30, not the network or broadcast address; its port, MTU and keepalive are in range; its endpoint
-- is a host; its DNS addresses are valid, and with the resolver on the server there is one and some
-- allowed range covers the server's address; it has allowed ranges and all are valid; its country
-- is empty or a code, and its city is at most 64 code points and printable.
pub validate_instance_iff :
    (is_ip : Text → Bool) (s : Instance)
    → IsWord s.address.addr
    → (validate_instance is_ip s ≡ []) ↔ IsServer is_ip s
validate_instance_iff is_ip s word = (validate_sound is_ip s word, validate_complete is_ip s word)
