-- ===== src/Wg/Model.antt =====
-- internal/wg/model.go: servers and devices, and the keys of internal/wg/key.go.
use tunploy.Common.{
  ℕ, ◌+◌, ◌-◌, ◌%◌, ◌<◌, ◌≡◌, ap, inl, inr, Bool, true, false, Option, none, some, List, [], ◌∷◌,
  arith, Bool-cases, length, replicate, eq_text, eq_text_sound, get_or, set, length-set,
  get_or-set_self,
}
use tunploy.Common.Int.{ℤ, pos}
use tunploy.Common.Text.{Text}
use tunploy.Wg.Net.{Addr, invalid, ip4, ip6, Prefix, masked, prefix_from}

-- The 32 bytes of a key.
abbrev pub Key : Type 0
Key = List ℕ

abbrev zero_key : Key
zero_key = replicate 32 0

abbrev is_zero : Key → Bool
is_zero k = eq_text k zero_key

-- `k[0] &= 248; k[31] = (k[31] & 127) | 64` over 32 random bytes.
clamp : List ℕ → Key
clamp k =
    let low = set k 0 (get_or k 0 0 - get_or k 0 0 % 8) in set low 31 (get_or low 31 0 % 64 + 64)

pub data Period : Type 0 where
  -- ""
  unset : Period
  monthly total : Period
  other : Text → Period

-- LimitPeriod.Valid
abbrev pub is_valid_period : Period → Bool
is_valid_period monthly = true
is_valid_period total = true
is_valid_period unset = false
is_valid_period (other s) = false

-- LimitPeriod.OrDefault
abbrev pub or_default : Period → Period
or_default unset = monthly
or_default monthly = monthly
or_default total = total
or_default (other s) = other s

-- Instants are nanoseconds since 1970, and an Option where the source has a nil pointer.
pub record Instance : Type 0 where
  pub id : ℕ
  pub node_id : ℕ
  pub name : Text
  pub address : Prefix
  pub listen_port : ℤ
  pub private_key : Key
  pub public_key : Key
  pub endpoint : Text
  pub dns : List Addr
  pub dns_on_server : Bool
  pub mtu : ℤ
  pub persistent_keepalive : ℤ
  pub client_allowed_ips : List Prefix
  pub country : Text
  pub city : Text
  pub created_at : ℕ
  pub updated_at : ℕ

pub record Peer : Type 0 where
  pub id : ℕ
  pub instance_id : ℕ
  pub name : Text
  pub address : Addr
  pub private_key : Key
  pub public_key : Key
  pub preshared_key : Key
  pub enabled : Bool
  pub external_id : Text
  pub metadata : Text
  pub data_limit : ℤ
  pub limit_period : Period
  pub usage_reset_at : Option ℕ
  pub expires_at : Option ℕ
  pub speed_limit : ℤ
  pub share_token : Text
  pub share_expires_at : Option ℕ
  pub last_handshake : Option ℕ
  pub created_at : ℕ
  pub updated_at : ℕ

abbrev pub default_listen_port : ℕ
default_listen_port = 51820

abbrev default_keepalive : ℕ
default_keepalive = 25

abbrev pub default_mtu : ℕ
default_mtu = 1420

-- 10.8.0.1/24
abbrev pub default_address : Prefix
default_address = record { addr = ip4 0x0a080001; bits = some 24 }

-- 1.1.1.1 and 1.0.0.1
abbrev pub default_dns : List Addr
default_dns = ip4 0x01010101 ∷ ip4 0x01000001 ∷ []

-- X25519 is a parameter; each key comes from 32 random bytes of its own.
module _ (public_of : Key → Key) where
  pub new_instance : Text → Text → List ℕ → Instance
  new_instance name endpoint random = record {
    id = 0;
    node_id = 0;
    name = name;
    address = default_address;
    listen_port = pos default_listen_port;
    private_key = clamp random;
    public_key = public_of (clamp random);
    endpoint = endpoint;
    dns = default_dns;
    dns_on_server = false;
    mtu = pos 0;
    persistent_keepalive = pos default_keepalive;
    client_allowed_ips = prefix_from (ip4 0) 0 ∷ prefix_from (ip6 0) 0 ∷ [];
    country = [];
    city = [];
    created_at = 0;
    updated_at = 0;
  }

-- NewClientPeer: the private key stays zero.
new_client_peer : ℕ → Text → Key → List ℕ → Peer
new_client_peer instance_id name public preshared = record {
  id = 0;
  instance_id = instance_id;
  name = name;
  address = invalid;
  private_key = zero_key;
  public_key = public;
  preshared_key = preshared;
  enabled = true;
  external_id = [];
  metadata = [];
  data_limit = pos 0;
  limit_period = monthly;
  usage_reset_at = none;
  expires_at = none;
  speed_limit = pos 0;
  share_token = [];
  share_expires_at = none;
  last_handshake = none;
  created_at = 0;
  updated_at = 0;
}

new_peer : (Key → Key) → ℕ → Text → List ℕ → List ℕ → Peer
unfolding new_client_peer
new_peer public_of instance_id name random preshared =
    let p = new_client_peer instance_id name (public_of (clamp random)) preshared in
    record p { private_key = clamp random }

abbrev pub key_on_client : Peer → Bool
key_on_client p = is_zero p.private_key

-- Instance.Subnet
abbrev pub subnet : Instance → Prefix
subnet s = masked s.address

is_zero-false : (k : Key) → 0 < get_or k 31 0 → is_zero k ≡ false
is_zero-false k h = elim (Bool-cases (is_zero k)) [
  | inl z ↦ absurd (omega (arith, ap (λ (x : Key). get_or x 31 0) (eq_text_sound k zero_key z)))
  | inr n ↦ n
]

is_zero-clamp : (random : List ℕ) → length random ≡ 32 → is_zero (clamp random) ≡ false
unfolding clamp
is_zero-clamp random h =
    let low : List ℕ = set random 0 (get_or random 0 0 - get_or random 0 0 % 8) in
    is_zero-false (set low 31 (get_or low 31 0 % 64 + 64)) (
      rw
        (get_or-set_self low 31 (get_or low 31 0 % 64 + 64) 0
          (omega (arith, length-set random 0 (get_or random 0 0 - get_or random 0 0 % 8))))
        (omega arith))
