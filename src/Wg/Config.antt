-- ===== src/Wg/Config.antt =====
-- internal/wg/config.go: the files that the server's container and the clients read.
pub mod Laws
pub mod KillSwitch
use tunploy.Common.{
  ℕ, zero, suc, ◌+◌, ◌-◌, ◌*◌, ◌/◌, ◌%◌, ◌^◌, ◌≤◌, ◌<◌, ◌≡◌, refl, sym, ap, ap₂, subst, ◌∙◌, ◌≢◌,
  ◌↔◌, ◌⊎◌, inl, inr, Bool, true, false, not, ◌&&◌, ◌||◌, Option, none, some, List, [], ◌∷◌, ◌++◌,
  map, append_assoc, append-nil, arith, ltb, leb, ◌==◌, if◌then◌else◌, ltb→lt, lt→ltb, leb→le,
  le→leb, ==_iff, ==_refl, tests, and_true, Bool-cases, Option-cases, is_some, length,
  length-append, replicate, is_empty, find, any, all, select, update_where, All, All-append,
  All-select, All-find, All-update_where, All-mono, mem, mem-append, eq_text, eq_text_refl,
  eq_text_sound, get_or, set, length-set, get_or-set_self,
}
use tunploy.Common.Int.{
  ℤ, pos, negsuc, pos_part, neg_part, sub_ℕ, ◌+ℤ◌, ◌-ℤ◌, ◌≤ℤ◌, ◌<ℤ◌, ltz, lez, eqz, from_bits64,
  wrap64, add64, sub64, wrap64_pos, add64_pos, sub64_pos, eqz→eq, eqz_refl,
}
use tunploy.Common.Text.{Text, codes, is_control}
use tunploy.Common.Show.{int_text, in_base}
use tunploy.Wg.Net.{Addr, invalid, ip4, ip6, Prefix, prefix_from, bit_len, is4}
use tunploy.Wg.Net.Show.{addr_text, prefix_text}
use tunploy.Wg.Model.{Instance, Peer, key_on_client, default_mtu}
use tunploy.Wg.Key.{key_text}

-- `field(&b, key, value)`
pub field : Text → Text → Text
field key value = key ++ codes " = " ++ value ++ 10 ∷ []

-- strings.Join(parts, ", ")
abbrev pub join_texts : List Text → Text
join_texts [] = []
join_texts (s ∷ []) = s
join_texts (s ∷ t ∷ ss) = s ++ codes ", " ++ join_texts (t ∷ ss)

-- A name must not end its comment line.
abbrev pub comment_safe : Text → Text
comment_safe = map λ c. if is_control c then b' ' else c

-- netip.PrefixFrom(a, a.BitLen()).String()
abbrev pub host_prefix_text : Addr → Text
host_prefix_text a = prefix_text (prefix_from a (bit_len a))

pub server_section : Instance → Text
unfolding field
server_section s =
    codes "[Interface]\n"
    ++ (field (codes "PrivateKey") (key_text s.private_key)
        ++ (field (codes "Address") (prefix_text s.address)
            ++ (field (codes "ListenPort") (int_text s.listen_port)
                ++ field (codes "MTU")
                    (int_text (if eqz s.mtu (pos 0) then pos default_mtu else s.mtu)))))

-- What the loop writes for a device; nothing for one that is turned off.
pub peer_section : Peer → Text
unfolding field
peer_section p =
    if not p.enabled
    then []
    else (10 ∷ codes "# "
        ++ (comment_safe p.name
            ++ (10 ∷ codes "[Peer]\n"
                ++ (field (codes "PublicKey") (key_text p.public_key)
                    ++ (field (codes "PresharedKey") (key_text p.preshared_key)
                        ++ field (codes "AllowedIPs") (host_prefix_text p.address))))))

pub peer_sections : List Peer → Text
peer_sections [] = []
peer_sections (p ∷ ps) = peer_section p ++ peer_sections ps

-- ServerConfig
pub server_config : Instance → List Peer → Text
unfolding server_section peer_section peer_sections
server_config s ps = server_section s ++ peer_sections ps

-- Instance.ClientDNS
abbrev pub client_dns : Instance → List Addr
client_dns s = if s.dns_on_server then s.address.addr ∷ [] else s.dns

abbrev bracketed : Bool → Text → Text
bracketed true host = b'[' ∷ host ++ b']' ∷ []
bracketed false host = host

-- net.JoinHostPort: a host with a colon goes in brackets.
abbrev join_host_port : Text → Text → Text
join_host_port host port = bracketed (any (λ c. c == b':') host) host ++ b':' ∷ port

pub client_interface : Instance → Peer → Text
unfolding field
client_interface s p =
    codes "[Interface]\n"
    ++ ((if key_on_client p then [] else field (codes "PrivateKey") (key_text p.private_key))
        ++ (field (codes "Address") (host_prefix_text p.address)
            ++ ((if is_empty (client_dns s)
                  then []
                  else field (codes "DNS") (join_texts (map addr_text (client_dns s))))
                ++ (if ltz (pos 0) s.mtu then field (codes "MTU") (int_text s.mtu) else []))))

pub client_peer : Instance → Peer → Text
unfolding field
client_peer s p =
    10 ∷ codes "[Peer]\n"
    ++ (field (codes "PublicKey") (key_text s.public_key)
        ++ (field (codes "PresharedKey") (key_text p.preshared_key)
            ++ (field (codes "AllowedIPs") (join_texts (map prefix_text s.client_allowed_ips))
                ++ (field (codes "Endpoint") (join_host_port s.endpoint (int_text s.listen_port))
                    ++ (if ltz (pos 0) s.persistent_keepalive
                        then field (codes "PersistentKeepalive") (int_text s.persistent_keepalive)
                        else [])))))

-- ClientConfig
pub client_config : Instance → Peer → Text
unfolding client_interface client_peer
client_config s p = client_interface s p ++ client_peer s p

-- SpeedLimitsConfig
pub speed_limits_config : List Peer → Text
speed_limits_config [] = []
speed_limits_config (p ∷ ps) =
    if p.enabled && ltz (pos 0) p.speed_limit
    then addr_text p.address ++ (b' ' ∷ int_text p.speed_limit ++ (10 ∷ speed_limits_config ps))
    else speed_limits_config ps

resolver_lines : List Addr → Text
resolver_lines [] = []
resolver_lines (a ∷ dns) = codes "server=" ++ (addr_text a ++ (10 ∷ resolver_lines dns))

-- ResolverConfig
pub resolver_config : Instance → Text
unfolding resolver_lines
resolver_config s = resolver_lines s.dns

abbrev is_everything : Prefix → Bool
is_everything p = is4 p.addr && elim p.bits [ none ↦ false | some b ↦ b == 0 ]

-- Instance.FullTunnel
pub full_tunnel : Instance → Bool
full_tunnel s = any is_everything s.client_allowed_ips

abbrev kill_switch_rule : Text
kill_switch_rule =
    codes
      "OUTPUT ! -o %i -m mark ! --mark $(wg show %i fwmark) -m addrtype ! --dst-type LOCAL -j REJECT"

abbrev pub kill_switch_lines : Text
kill_switch_lines =
    codes "PostUp = iptables -I "
    ++ (kill_switch_rule
        ++ (codes " && ip6tables -I "
            ++ (kill_switch_rule
                ++ (codes "\nPreDown = iptables -D "
                    ++ (kill_switch_rule
                        ++ (codes " && ip6tables -D " ++ (kill_switch_rule ++ 10 ∷ [])))))))

abbrev pub starts : Text → Text → Bool
starts [] s = true
starts (p ∷ pat) [] = false
starts (p ∷ pat) (c ∷ s) = p == c && starts pat s

abbrev cons_first : ℕ → Option (Text × Text) → Option (Text × Text)
cons_first c none = none
cons_first c (some (s, t)) = some (c ∷ s, t)

-- The text before the first occurrence of a pattern, and the rest from there: bytes.Index with the
-- two slices at it.
pub split_before : Text → Text → Option (Text × Text)
split_before pat [] = if starts pat [] then some ([], []) else none
split_before pat (c ∷ s) =
    if starts pat (c ∷ s) then some ([], c ∷ s) else cons_first c (split_before pat s)

pub data KillSwitchResult : Type 0 where
  config : Text → KillSwitchResult
  -- ErrSplitTunnel
  split_tunnel : KillSwitchResult
  -- `conf[:-1]`, had there been no peer section.
  panics : KillSwitchResult

abbrev insert_rules : Option (Text × Text) → KillSwitchResult
insert_rules none = panics
insert_rules (some (before, after)) = config (before ++ (kill_switch_lines ++ after))

-- KillSwitchConfig
pub kill_switch_config : Instance → Peer → KillSwitchResult
kill_switch_config s p =
    if not (full_tunnel s)
    then split_tunnel
    else insert_rules (split_before (codes "\n[Peer]") (client_config s p))
