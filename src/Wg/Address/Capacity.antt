-- ===== src/Wg/Address/Capacity.antt =====
-- Capacity against NextAddress: a subnet with fewer peers than its capacity has a free address.
use tunploy.Common.{
  ℕ, zero, suc, ◌+◌, ◌-◌, ◌^◌, ◌≤◌, ◌<◌, ◌≡◌, refl, ◌≢◌, true, not, some, List, [], ◌∷◌, ◌++◌,
  arith, length, length-append, select,
}
use tunploy.Common.Int.{pos, ◌<ℤ◌}
use tunploy.Wg.Net.{Addr, invalid, ip4, ip6, eq_addr}
use tunploy.Wg.Address.{Next, found, subnet_full, out_of_fuel, taken, next_address, capacity}
use tunploy.Wg.Address.Bounds.{size_ge_four}
use tunploy.Wg.Address.Laws.{IsLowestFree, next_address-IsLowestFree}

-- The addresses in use without one of them.
abbrev without : ℕ → List Addr → List Addr
without n = select λ a. not (eq_addr (ip4 n) a)

length-without-le : (n : ℕ) (used : List Addr) → length (without n used) ≤ length used
length-without-le n [] = omega arith
length-without-le n (a ∷ used) = ground (arith, length-without-le n used)

length-without-lt :
    (n : ℕ) (used : List Addr) → taken used n ≡ true → length (without n used) < length used
length-without-lt n [] h = absurd (cc)
length-without-lt n (a ∷ used) h =
    ground (arith, length-without-le n used, length-without-lt n used)

taken-without :
    (n m : ℕ) (used : List Addr) → m ≢ n → taken used m ≡ true → taken (without n used) m ≡ true
taken-without n m [] d h = h
taken-without n m (invalid ∷ used) d h = ground (arith, taken-without n m used d)
taken-without n m (ip4 a ∷ used) d h = ground (arith, taken-without n m used d)
taken-without n m (ip6 a ∷ used) d h = ground (arith, taken-without n m used d)

-- k addresses in a row that are all in use are k entries of the list.
pigeonhole :
    (k lo : ℕ) (used : List Addr) → ((i : ℕ) → i < k → taken used (lo + i) ≡ true) → k ≤ length used
pigeonhole zero lo used h = omega arith
pigeonhole (suc k) lo used h = omega (
  arith,
  length-without-lt (lo + k) used (h k (omega arith)),
  pigeonhole k lo (without (lo + k) used)
      (λ i p. taken-without (lo + k) (lo + i) used (omega arith) (h i (omega arith))),
)

full_length :
    (used : List Addr) (first last : ℕ)
    → IsLowestFree used first last subnet_full
    → last + 1 - first ≤ length used
full_length used first last s =
    pigeonhole (last + 1 - first) first used (λ i p. s (first + i) (omega arith) (omega arith))

found_of_room :
    (used : List Addr) (first last : ℕ) (r : Next)
    → IsLowestFree used first last r
    → length used < last + 1 - first
    → (n : ℕ) × (r ≡ found n)
found_of_room used first last (found n) s h = (n, refl)
found_of_room used first last subnet_full s h =
    absurd (omega (arith, full_length used first last s))
found_of_room used first last out_of_fuel s h = absurd s

-- The used addresses are those of the peers and the server's own. On an IPv4 subnet of at most 30
-- bits, with fewer peers than its `capacity`, `next_address` finds one. (`capacity` is an int, so
-- that is an order of integers.)
pub next_address-capacity :
    (server : Addr) (peers : List Addr) (a b : ℕ)
    → b ≤ 30
    → a < 2 ^ 32
    → pos (length peers) <ℤ capacity b
    → (n : ℕ) × (next_address (record { addr = ip4 a; bits = some b }) (peers ++ server ∷ [])
        ≡ found n)
next_address-capacity server peers a b h k room =
    found_of_room (peers ++ server ∷ []) _ _ _
      (next_address-IsLowestFree (peers ++ server ∷ []) a b h k)
      (let four = size_ge_four b h in let len = length-append peers (server ∷ []) in ground arith)
