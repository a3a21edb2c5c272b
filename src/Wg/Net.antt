-- ===== src/Wg/Net.antt =====
-- The parts of net/netip that internal/wg and internal/instance use. Zones are left out.
pub mod Show
use tunploy.Common.{
  ℕ, ◌-◌, ◌%◌, ◌/◌, ◌^◌, ◌≡◌, refl, Bool, true, false, Option, none, some, arith, leb, ◌==◌,
  if◌then◌else◌,
}
use Prim.Native.Nat.{min}

-- `invalid` is the zero netip.Addr; the numbers are the address read as a big-endian integer.
pub data Addr : Type 0 where
  invalid : Addr
  ip4 : ℕ → Addr
  ip6 : ℕ → Addr

pub record Prefix : Type 0 where
  pub addr : Addr
  pub bits : Option ℕ

abbrev no_prefix : Prefix
no_prefix = record { addr = invalid; bits = none }

abbrev pub eq_addr : Addr → Addr → Bool
eq_addr invalid invalid = true
eq_addr (ip4 a) (ip4 b) = a == b
eq_addr (ip6 a) (ip6 b) = a == b
eq_addr _ _ = false

abbrev pub is_valid_addr : Addr → Bool
is_valid_addr invalid = false
is_valid_addr (ip4 a) = true
is_valid_addr (ip6 a) = true

abbrev pub is4 : Addr → Bool
is4 (ip4 a) = true
is4 invalid = false
is4 (ip6 a) = false

abbrev pub bit_len : Addr → ℕ
bit_len invalid = 0
bit_len (ip4 a) = 32
bit_len (ip6 a) = 128

abbrev pub is_valid : Prefix → Bool
is_valid p = elim p.bits [ none ↦ false | some b ↦ true ]

abbrev pub prefix_from : Addr → ℕ → Prefix
prefix_from invalid b = no_prefix
prefix_from a b = record { addr = a; bits = if leb b (bit_len a) then some b else none }

abbrev mask : Addr → ℕ → Addr
mask invalid b = invalid
mask (ip4 a) b = ip4 (a - a % 2 ^ (32 - b))
mask (ip6 a) b = ip6 (a - a % 2 ^ (128 - b))

abbrev masked_at : Addr → Option ℕ → Prefix
masked_at a none = no_prefix
masked_at a (some b) = record { addr = mask a b; bits = some b }

abbrev pub masked : Prefix → Prefix
masked p = masked_at p.addr p.bits

-- Two addresses of one family that agree on their first b bits.
abbrev agree : Addr → Addr → ℕ → Bool
agree (ip4 a) (ip4 c) b = a / 2 ^ (32 - b) == c / 2 ^ (32 - b)
agree (ip6 a) (ip6 c) b = a / 2 ^ (128 - b) == c / 2 ^ (128 - b)
agree _ _ b = false

abbrev contains_at : Addr → Option ℕ → Addr → Bool
contains_at a none c = false
contains_at a (some b) c = agree a c b

abbrev pub contains : Prefix → Addr → Bool
contains p c = contains_at p.addr p.bits c

abbrev overlaps_at : Addr → Option ℕ → Addr → Option ℕ → Bool
overlaps_at a (some b) c (some d) = agree a c (min b d)
overlaps_at _ _ _ _ = false

abbrev pub overlaps : Prefix → Prefix → Bool
overlaps p q = overlaps_at p.addr p.bits q.addr q.bits

pub eq_addr_refl : (a : Addr) → eq_addr a a ≡ true
eq_addr_refl invalid = refl
eq_addr_refl (ip4 a) = ground arith
eq_addr_refl (ip6 a) = ground arith

pub eq_addr_sound : (a b : Addr) → eq_addr a b ≡ true → a ≡ b
eq_addr_sound invalid invalid h = refl
eq_addr_sound (ip4 a) (ip4 b) h = ground arith
eq_addr_sound (ip6 a) (ip6 b) h = ground arith
eq_addr_sound _ _ h = absurd (cc)
