-- ===== src/Wg/Address.antt =====
-- internal/wg/address.go: the host addresses of a subnet and the first free one.
pub mod Bounds
pub mod Capacity
pub mod Laws
use tunploy.Common.{
  ℕ, zero, suc, ◌+◌, ◌-◌, ◌%◌, ◌^◌, Bool, false, ◌&&◌, not, List, any, Option, none, some, leb, ltb,
  if◌then◌else◌,
}
use tunploy.Common.Int.{ℤ, sub_ℕ}
use tunploy.Wg.Net.{Addr, ip4, ip6, invalid, Prefix, eq_addr, masked}

-- A netip.Addr, or wg.ErrSubnetFull. `out_of_fuel` stands for a loop that has not ended.
pub data Next : Type 0 where
  found : ℕ → Next
  subnet_full : Next
  out_of_fuel : Next

-- `uint32(1) << (32 - bits)`: 0 at bits = 0.
abbrev subnet_size : ℕ → ℕ
subnet_size b = 2 ^ (32 - b) % 2 ^ 32

abbrev range_at : Addr → Option ℕ → Option (ℕ × ℕ)
range_at (ip4 a) (some b) =
    if ltb 30 b
    then none
    else (let network = a - a % 2 ^ (32 - b) in
        some ((network + 1) % 2 ^ 32, (network + subnet_size b + (2 ^ 32 - 2)) % 2 ^ 32))
range_at _ _ = none

-- First and last host address, as uint32.
pub host_range : Prefix → Option (ℕ × ℕ)
host_range subnet = range_at subnet.addr subnet.bits

abbrev in_range : Option (ℕ × ℕ) → Addr → Bool
in_range (some (first, last)) (ip4 n) = leb first n && leb n last
in_range _ _ = false

pub is_host_address : Prefix → Bool
is_host_address p = in_range (host_range p) p.addr

abbrev pub taken : List Addr → ℕ → Bool
taken used n = any (eq_addr (ip4 n)) used

-- `for n := first; n <= last; n++`, whose counter is a uint32.
scan : List Addr → ℕ → ℕ → ℕ → Next
scan used last zero n = out_of_fuel
scan used last (suc fuel) n =
    let rest = scan used last fuel ((n + 1) % 2 ^ 32) in
    let here = if taken used n then rest else found n in if leb n last then here else subnet_full

abbrev scan_range : List Addr → Option (ℕ × ℕ) → Next
scan_range used none = subnet_full
scan_range used (some (first, last)) = scan used last (2 ^ 32) first

pub next_address : Prefix → List Addr → Next
next_address subnet used = scan_range used (host_range subnet)

-- A Go int, so it may be negative.
abbrev pub capacity : ℕ → ℤ
capacity b = sub_ℕ (2 ^ (32 - b)) 3
