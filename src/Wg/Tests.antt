-- ===== src/Wg/Tests.antt =====
-- The theorems about WireGuard at a small office server.
use tunploy.Common.{ℕ, ◌≡◌, refl, ◌↔◌, true, false, some, [], ◌∷◌, arith}
use tunploy.Common.Int.{pos, wrap64, add64}
use tunploy.Wg.Net.{ip4}
use tunploy.Wg.Limits.{Traffic, blocked, is_blocked, limit_reached, status}
use tunploy.Wg.Limits.Laws.{status_iff, blocked_mono, Means, traffic}
use tunploy.Wg.Key.{key_text, parse_key}
use tunploy.Wg.Key.Laws.{parse_key-key_text}
use tunploy.Wg.Address.{next_address, found}
use tunploy.Wg.Address.Laws.{next_address-IsLowestFree, IsLowestFree}
use tunploy.Wg.Address.Capacity.{next_address-capacity}
use tunploy.Wg.Validate.{validate_instance, validate_peer}
use tunploy.Wg.Validate.Laws.{validate_peer_iff, IsPeer}
use tunploy.Wg.Validate.Server.{validate_instance_iff, IsServer}
use tunploy.Wg.Config.{server_config}
use tunploy.Wg.Config.Laws.{effective, effective-server_config, server_settings}
use tunploy.Wg.Samples.{a_key, office, phone}

abbrev past_limit : Traffic
past_limit = record { rx = pos 60; tx = pos 40 }

status_iff_example :
    (status phone past_limit 0 ≡ limit_reached) ↔ Means phone past_limit 0 limit_reached
status_iff_example = status_iff phone past_limit 0 limit_reached

blocked_mono_example : is_blocked (blocked phone (traffic 70 40) 5) ≡ true
unfolding blocked add64 wrap64
blocked_mono_example =
    blocked_mono phone 60 40 70 40 0 5 (omega arith) (omega arith) (omega arith) (omega arith) refl

parse_key-key_text_example : parse_key (key_text (a_key 7)) ≡ some (a_key 7)
parse_key-key_text_example = parse_key-key_text (a_key 7) refl (omega arith)

next_address-IsLowestFree_example :
    IsLowestFree
      (ip4 0x0a080001 ∷ [])
      0x0a080001
      0x0a0800fe
      (next_address (record { addr = ip4 0x0a080001; bits = some 24 }) (ip4 0x0a080001 ∷ []))
next_address-IsLowestFree_example =
    next_address-IsLowestFree (ip4 0x0a080001 ∷ []) 0x0a080001 24 (omega arith) (omega arith)

next_address-capacity_example :
    (n : ℕ) × (next_address
        (record { addr = ip4 0x0a080001; bits = some 24 })
        (ip4 0x0a080002 ∷ ip4 0x0a080001 ∷ [])
      ≡ found n)
next_address-capacity_example =
    next_address-capacity (ip4 0x0a080001) (ip4 0x0a080002 ∷ []) 0x0a080001 24 (omega arith)
      (omega arith) (omega arith)

validate_peer_iff_example : (validate_peer (λ t. true) phone ≡ []) ↔ IsPeer (λ t. true) phone
validate_peer_iff_example = validate_peer_iff (λ t. true) phone

validate_instance_iff_example :
    (validate_instance (λ t. false) office ≡ []) ↔ IsServer (λ t. false) office
validate_instance_iff_example = validate_instance_iff (λ t. false) office (omega arith)

effective-server_config_example :
    effective (server_config office (phone ∷ [])) ≡ server_settings office (phone ∷ [])
effective-server_config_example = effective-server_config office (phone ∷ [])
