-- ===== src/Placement.antt =====
-- internal/instance/place.go: the subnet and the port of a new server, and the server of a new device.
pub mod Ports
pub mod Choice
mod Tests
use tunploy.Common.{
  ℕ, zero, suc, ◌+◌, ◌-◌, ◌*◌, ◌/◌, ◌%◌, ◌^◌, ◌≤◌, ◌<◌, ◌≡◌, refl, sym, ap, ap₂, subst, ◌∙◌, ◌≢◌,
  ◌↔◌, ◌⊎◌, inl, inr, Bool, true, false, not, ◌&&◌, ◌||◌, Option, none, some, List, [], ◌∷◌, ◌++◌,
  map, append_assoc, append-nil, arith, ltb, leb, ◌==◌, if◌then◌else◌, ltb→lt, lt→ltb, leb→le,
  le→leb, ==_iff, ==_refl, tests, and_true, Bool-cases, Option-cases, is_some, length,
  length-append, replicate, is_empty, find, any, all, select, update_where, All, All-append,
  All-select, All-find, All-update_where, All-mono, mem, mem-append, eq_text, eq_text_refl,
  eq_text_sound, get_or, set, length-set, get_or-set_self,
}
use tunploy.Common.Int.{
  ℤ, pos, negsuc, pos_part, neg_part, sub_ℕ, ◌+ℤ◌, ◌-ℤ◌, ◌≤ℤ◌, ◌<ℤ◌, ltz, lez, eqz, from_bits64,
  wrap64, add64, sub64, wrap64_pos, add64_pos, sub64_pos, eqz→eq, eqz_refl,
}
use tunploy.Common.Text.{Text, codes, trim_space}
use tunploy.Apperr.{Result, ok, err, Error, app, conflict, format, text}
use tunploy.Wg.Net.{Addr, ip4, Prefix, prefix_from, is_valid, masked, overlaps}
use tunploy.Wg.Model.{Instance, Peer, subnet, default_listen_port, default_address}
use tunploy.Wg.Address.{capacity}
use tunploy.Wg.Validate.{min_subnet_bits}
use tunploy.Store.Tables.{Db}
use tunploy.Store.Peers.{peer_count}
use tunploy.Store.Servers.{all_instances}

-- overlapping
pub overlapping : List Instance → Prefix → Option Instance
overlapping existing p =
    if not (is_valid p) then none else find (λ s. overlaps (subnet s) (masked p)) existing

-- 10.second.0.1
abbrev candidate : ℕ → ℕ → Prefix
candidate second bits = prefix_from (ip4 (10 * 2 ^ 24 + second * 2 ^ 16 + 1)) bits

abbrev subnet_or : List Instance → Prefix → Prefix → Prefix
subnet_or existing p rest = if is_some (overlapping existing p) then rest else p

-- The loop of nextFreeSubnet, with so many values of `second` left.
subnet_from : List Instance → ℕ → ℕ → ℕ → Prefix
subnet_from existing bits zero second = prefix_from (ip4 0x0a080001) bits
subnet_from existing bits (suc left) second =
    let rest = subnet_from existing bits left (second + 1) in
    subnet_or existing (candidate second bits) rest

-- nextFreeSubnet
pub next_free_subnet : List Instance → ℕ → Prefix
next_free_subnet existing bits = subnet_from existing bits 248 8

abbrev holds : ℤ → ℕ → Bool
holds n bits = lez n (capacity bits)

-- The loop of subnetBitsFor, from the subnets that are left to the widest.
bits_from : ℤ → ℕ → Option (ℕ × Bool)
bits_from n zero = none
bits_from n (suc left) =
    let rest = bits_from n left in
    if holds n (min_subnet_bits + left) then some (min_subnet_bits + left, lez (pos 1) n) else rest

-- subnetBitsFor; `none` is its (0, false).
pub subnet_bits_for : ℤ → Option (ℕ × Bool)
subnet_bits_for n = bits_from n 9

abbrev pub ports_on : List Instance → ℕ → List ℤ
ports_on existing node_id =
    map (λ (s : Instance). s.listen_port) (select (λ (s : Instance). s.node_id == node_id) existing)

abbrev pub in_use : List ℤ → ℕ → Bool
in_use used port = any (λ q. eqz q (pos port)) used

-- The loop of nextFreePort.
pub port_from : List ℤ → ℕ → ℕ → ℕ
port_from used zero port = port
port_from used (suc fuel) port =
    let rest = port_from used fuel (port + 1) in
    if in_use used port && ltb port 65535 then rest else port

-- nextFreePort
pub next_free_port : List Instance → ℕ → ℕ
next_free_port existing node_id = port_from (ports_on existing node_id) 65536 default_listen_port

-- Pick's test of a server: the state of its deployment, and room for one more device.
abbrev pub has_room : (ℕ → Bool) → (ℕ → ℕ) → Instance → Bool
has_room is_running count s = elim s.address.bits [
  | none ↦ false
  | some b ↦ is_running s.id && ltz (pos (count s.id)) (capacity b)
]

abbrev pub better : (ℕ → ℕ) → Option Instance → Instance → Option Instance
better count none s = some s
better count (some best) s = if ltb (count s.id) (count best.id) then some s else some best

-- The loop of Pick.
pub best_of : (ℕ → Bool) → (ℕ → ℕ) → Option Instance → List Instance → Option Instance
best_of is_running count best [] = best
best_of is_running count best (s ∷ ss) =
    best_of is_running count (if has_room is_running count s then better count best s else best) ss

abbrev pub is_wanted : (Text → Text → Bool) → Text → Text → ℕ → Instance → Bool
is_wanted equal_fold country city skip s = not (
    s.id == skip
    || (not (is_empty country) && not (equal_fold s.country country))
    || (not (is_empty city) && not (equal_fold s.city city)))

abbrev place : (Text → Text) → Text → Text → Text
place to_upper country city =
    if not (is_empty city)
    then codes " in " ++ city
    else (if not (is_empty country) then codes " in " ++ to_upper country else [])

abbrev no_server : Text → Error
no_server where_ =
    app conflict "no_server_available"
      (format "no running server%s has free addresses" (text where_ ∷ [])) []

abbrev pub picked : Text → Option Instance → Result Instance
picked where_ none = err (no_server where_)
picked where_ (some s) = ok s

-- Pick. Case folding and the states of deployments are parameters.
pub pick :
    (Text → Text → Bool) → (Text → Text) → (ℕ → Bool) → Db → Text → Text → ℕ → Result Instance
pick equal_fold to_upper is_running db country city skip =
    let here = trim_space country in
    let town = trim_space city in
    let wanted = select (is_wanted equal_fold here town skip) (all_instances db) in
    picked (place to_upper here town) (best_of is_running (peer_count db) none wanted)
