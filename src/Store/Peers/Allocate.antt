-- ===== src/Store/Peers/Allocate.antt =====
-- What the store's address allocation returns.
use tunploy.Common.{
  ℕ, ◌+◌, ◌-◌, ◌%◌, ◌^◌, ◌≤◌, ◌<◌, ◌≡◌, refl, subst, ◌≢◌, Bool, false, ◌||◌, Option, none, some,
  List, [], ◌∷◌, ◌++◌, arith, any,
}
use tunploy.Apperr.{ok}
use tunploy.Wg.Net.{Addr, invalid, ip4, ip6, eq_addr}
use tunploy.Wg.Model.{Instance}
use tunploy.Wg.Address.{Next, found, out_of_fuel, taken, next_address}
use tunploy.Wg.Address
use tunploy.Wg.Address.Laws.{IsLowestFree, next_address-IsLowestFree}
use tunploy.Wg.Address.Bounds.{size_ge_four}
use tunploy.Wg.Validate.Server.{IsServerAddress, IsWord}
use tunploy.Store.Tables.{Row}
use tunploy.Store.Peers.{peer_addresses, free_address, allocate}

-- A host address of the server's subnet that is not the server's own.
abbrev pub IsHostAt : Addr → Option ℕ → Addr → Type 0
IsHostAt (ip4 a) (some b) (ip4 n) =
    (a - a % 2 ^ (32 - b) + 1 ≤ n) × (n ≤ a - a % 2 ^ (32 - b) + 2 ^ (32 - b) - 2) × (n ≢ a)
IsHostAt _ _ _ = ⊥

-- The address of a server that passed the checks.
pub record IsPlaced (s : Instance) : Type 0 where
  pub address : IsServerAddress s.address.addr s.address.bits
  pub word : IsWord s.address.addr

pub any-append {ℓ} :
    {A : Type ℓ} (p : A → Bool) (xs ys : List A) → any p (xs ++ ys) ≡ (any p xs || any p ys)
any-append p [] ys = refl
any-append p (x ∷ xs) ys = ground (arith, any-append p xs ys)

masked_mod : (a s : ℕ) → 0 < s → (a - a % s) % s ≡ 0
masked_mod a s h = grind arith

masked_network : (a s : ℕ) → 0 < s → a - a % s - (a - a % s) % s ≡ a - a % s
masked_network a s h = omega (arith, masked_mod a s h)

free_of_IsLowestFree :
    (used : List Addr) (a b network : ℕ) (r : Next) (got : Addr)
    → IsLowestFree (used ++ ip4 a ∷ []) (network + 1) (network + 2 ^ (32 - b) - 2) r
    → free_address r ≡ ok got
    → network ≡ a - a % 2 ^ (32 - b)
    → IsHostAt (ip4 a) (some b) got × (any (eq_addr got) used ≡ false)
free_of_IsLowestFree used a b network (found n) got l e m =
    let same : ip4 n ≡ got = cc in
    let split = any-append (eq_addr (ip4 n)) used (ip4 a ∷ []) in
    let free : any (eq_addr (ip4 n)) used ≡ false = ground (arith, l.2) in
    let other : n ≢ a = ground (arith, l.2) in
    subst (λ g. IsHostAt (ip4 a) (some b) g × (any (eq_addr g) used ≡ false)) same
      ((omega (arith, l.0), omega (arith, l.1), other), free)
free_of_IsLowestFree used a b network Address.subnet_full got l e m = absurd (cc)
free_of_IsLowestFree used a b network out_of_fuel got l e m = absurd l

-- On a server that passed the checks, an allocated address is a host of its subnet, is not its own
-- address, and is no other device's there.
allocate_at :
    (rows : List Row) (s : Instance) (a : Addr) (bits : Option ℕ) (got : Addr)
    → s.address ≡ record { addr = a; bits = bits }
    → IsServerAddress a bits
    → IsWord a
    → allocate rows s ≡ ok got
    → IsHostAt a bits got × (any (eq_addr got) (peer_addresses rows s.id) ≡ false)
unfolding allocate
allocate_at rows s (ip4 a) (some b) got shape h w e =
    free_of_IsLowestFree (peer_addresses rows s.id) a b _ _ got
      (next_address-IsLowestFree (peer_addresses rows s.id ++ ip4 a ∷ []) (a - a % 2 ^ (32 - b)) b
        h.1 (omega arith))
      (simp shape at e) (masked_network a (2 ^ (32 - b)) (omega (arith, size_ge_four b h.1)))
allocate_at rows s (ip4 a) none got shape h w e = absurd h
allocate_at rows s (ip6 a) none got shape h w e = absurd h
allocate_at rows s invalid none got shape h w e = absurd h
allocate_at rows s (ip6 a) (some b) got shape h w e = absurd h
allocate_at rows s invalid (some b) got shape h w e = absurd h

pub allocate-IsHostAt :
    (rows : List Row) (s : Instance) (got : Addr)
    → IsPlaced s
    → allocate rows s ≡ ok got
    → IsHostAt s.address.addr s.address.bits got
      × (any (eq_addr got) (peer_addresses rows s.id) ≡ false)
allocate-IsHostAt rows s got h e =
    allocate_at rows s s.address.addr s.address.bits got refl h.address h.word e
