-- ===== src/Wg/Address/Bounds.antt =====
-- The uint32 arithmetic of hostRange does not wrap: the range lies inside the subnet.
use native.Mathlib.Nat.{mod-le, pow-suc, one-le-pow}
use tunploy.Common.{ℕ, zero, suc, ◌+◌, ◌-◌, ◌*◌, ◌%◌, ◌^◌, ◌≤◌, ◌<◌, ◌≡◌, ◌↔◌, true, some, arith}
use tunploy.Wg.Net.{ip4}
use tunploy.Wg.Address.{is_host_address, in_range, host_range}

pow_split : (a b : ℕ) → 2 ^ (a + b) ≡ 2 ^ a * 2 ^ b
pow_split zero b = let e : zero + b ≡ b = omega arith in rw e (omega arith)
pow_split (suc a) b =
    let e : suc a + b ≡ suc (a + b) = omega arith in
    rw (e, pow-suc 2 (a + b), pow-suc 2 a, pow_split a b) (omega arith)

pub size_ge_four : (b : ℕ) → b ≤ 30 → 4 ≤ 2 ^ (32 - b)
size_ge_four b h =
    let e : 32 - b ≡ (30 - b) + 2 = omega arith in
    rw (e, pow_split (30 - b) 2) (omega (arith, one-le-pow (30 - b) 2 (omega arith)))

size_total : (b : ℕ) → b ≤ 30 → 2 ^ b * 2 ^ (32 - b) ≡ 2 ^ 32
size_total b h = let e : b + (32 - b) ≡ 32 = omega arith in rw (← pow_split b (32 - b), e)

block_bound : (a s t : ℕ) → 0 < s → a < t * s → a - a % s + s ≤ t * s
block_bound a s t p h = grind arith

pub network_bound : (a b : ℕ) → b ≤ 30 → a < 2 ^ 32 → a - a % 2 ^ (32 - b) + 2 ^ (32 - b) ≤ 2 ^ 32
network_bound a b h k =
    rw (← size_total b h) (
      block_bound a (2 ^ (32 - b)) (2 ^ b) (omega (arith, size_ge_four b h))
        (rw (size_total b h) k))

-- On every IPv4 prefix of at most 30 bits the uint32 sums are the exact ones.
pub host_range_exact :
    (a b : ℕ)
    → b ≤ 30
    → a < 2 ^ 32
    → let network = a - a % 2 ^ (32 - b) in
      host_range (record { addr = ip4 a; bits = some b })
      ≡ some (network + 1, network + 2 ^ (32 - b) - 2)
unfolding host_range
host_range_exact a b h k = ground (arith, network_bound a b h k, size_ge_four b h)

-- A host address is one whose offset in its subnet is neither the first nor the last.
pub is_host_address_iff :
    (a b : ℕ)
    → b ≤ 30
    → a < 2 ^ 32
    → (is_host_address (record { addr = ip4 a; bits = some b }) ≡ true)
      ↔ ((0 < a % 2 ^ (32 - b)) × (a % 2 ^ (32 - b) < 2 ^ (32 - b) - 1))
unfolding is_host_address
is_host_address_iff a b h k =
    rw (host_range_exact a b h k, in_range)
      (
        λ e. ground (arith, size_ge_four b h, mod-le a (2 ^ (32 - b))),
        λ e. ground (arith, size_ge_four b h, e.0, e.1, mod-le a (2 ^ (32 - b))),
      )
