-- ===== src/Wg/Address/Laws.antt =====
-- What NextAddress returns.
use native.Mathlib.Decide.{dec_lt}
use tunploy.Common.{
  ℕ, zero, suc, ◌+◌, ◌-◌, ◌%◌, ◌^◌, ◌≤◌, ◌<◌, ◌≡◌, inl, inr, true, false, some, List, arith, leb,
  tests, Bool-cases,
}
use tunploy.Wg.Net.{Addr, ip4}
use tunploy.Wg.Address.{
  Next, found, subnet_full, out_of_fuel, taken, scan, scan_range, next_address,
}
use tunploy.Wg.Address.Bounds.{host_range_exact, network_bound, size_ge_four}

-- The outcome over the hosts from `first` to `last`.
abbrev pub IsLowestFree : List Addr → ℕ → ℕ → Next → Type 0
IsLowestFree used first last (found n) =
    (first ≤ n)
    × (n ≤ last)
    × (taken used n ≡ false)
    × ((m : ℕ) → first ≤ m → m < n → taken used m ≡ true)
IsLowestFree used first last subnet_full = (m : ℕ) → first ≤ m → m ≤ last → taken used m ≡ true
IsLowestFree used first last out_of_fuel = ⊥

taken_from :
    (used : List Addr) (n m : ℕ)
    → taken used n ≡ true
    → n ≤ m
    → (n + 1 ≤ m → taken used m ≡ true)
    → taken used m ≡ true
taken_from used n m t h later = elim (dec_lt n m) [
  | yes p ↦ later (omega arith)
  | no p ↦ let e : m ≡ n = omega arith in rw e t
]

IsLowestFree-step :
    (used : List Addr) (n last : ℕ) (r : Next)
    → n ≤ last
    → taken used n ≡ true
    → IsLowestFree used (n + 1) last r
    → IsLowestFree used n last r
IsLowestFree-step used n last (found k) h t (lo, hi, free, below) =
    (omega arith, hi, free, λ m p q. taken_from used n m t p (λ l. below m l q))
IsLowestFree-step used n last subnet_full h t s = λ m p q. taken_from used n m t p (λ l. s m l q)
IsLowestFree-step used n last out_of_fuel h t s = s

scan-IsLowestFree :
    (used : List Addr) (last fuel n : ℕ)
    → last + 1 < 2 ^ 32
    → n ≤ last + 1
    → last + 1 - n < fuel
    → IsLowestFree used n last (scan used last fuel n)
unfolding scan
scan-IsLowestFree used last zero n h l k = absurd (omega arith)
scan-IsLowestFree used last (suc fuel) n h l k = elim (Bool-cases (leb n last)) [
  | inl inside ↦ elim (Bool-cases (taken used n)) [
    | inl t ↦
        let e : (n + 1) % 2 ^ 32 ≡ n + 1 = omega tests in
        rw (inside, t, e)
          (IsLowestFree-step used n last _ (omega tests) t
            (scan-IsLowestFree used last fuel (n + 1) h (omega tests) (omega tests)))
    | inr free ↦ rw (inside, free) (omega arith, omega tests, free, λ m p q. absurd (omega arith))
  ]
  | inr past ↦ rw past (λ m p q. absurd (ground arith))
]

-- On an IPv4 subnet of at most 30 bits the loop ends, for any addresses in use. It returns the
-- lowest host address that is not in use, strictly between the network and the broadcast address,
-- or `subnet_full` when each host address is in use.
pub next_address-IsLowestFree :
    (used : List Addr) (a b : ℕ)
    → b ≤ 30
    → a < 2 ^ 32
    → let network = a - a % 2 ^ (32 - b) in
      IsLowestFree used
        (network + 1)
        (network + 2 ^ (32 - b) - 2)
        (next_address (record { addr = ip4 a; bits = some b }) used)
unfolding next_address
next_address-IsLowestFree used a b h k =
    rw (host_range_exact a b h k, scan_range)
      (scan-IsLowestFree used _ (2 ^ 32) _ (omega (arith, network_bound a b h k, size_ge_four b h))
        (omega (arith, network_bound a b h k, size_ge_four b h))
        (omega (arith, network_bound a b h k, size_ge_four b h)))
