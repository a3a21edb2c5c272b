-- ===== src/Wg/Net/Show.antt =====
-- netip.Addr.String and netip.Prefix.String. A print never breaks a line.
mod Tests
use tunploy.Common.{
  ℕ, zero, suc, ◌+◌, ◌/◌, ◌%◌, ◌^◌, ◌≡◌, refl, inl, inr, ◌&&◌, Option, none, some, List, [], ◌∷◌,
  ◌++◌, arith, ltb, leb, ◌==◌, if◌then◌else◌, Bool-cases, ◌≢◌, All, All-append,
}
use tunploy.Common.Text.{Text, codes}
use tunploy.Common.Show.{
  digit, digit-above, in_base-All, in_base, in_base-OneLine, OneLine, OneLine-append,
}
use tunploy.Wg.Net.{Addr, invalid, ip4, ip6, Prefix}

-- Dotted decimal.
unfoldable pub ip4_text : ℕ → Text
ip4_text a =
    in_base 10 (a / 2 ^ 24 % 256)
    ++ (b'.'
        ∷ (in_base 10 (a / 2 ^ 16 % 256)
            ++ (b'.' ∷ (in_base 10 (a / 2 ^ 8 % 256) ++ (b'.' ∷ in_base 10 (a % 256))))))

abbrev groups : ℕ → List ℕ
groups a =
    a / 2 ^ 112 % 2 ^ 16
    ∷ a / 2 ^ 96 % 2 ^ 16
    ∷ a / 2 ^ 80 % 2 ^ 16
    ∷ a / 2 ^ 64 % 2 ^ 16
    ∷ a / 2 ^ 48 % 2 ^ 16
    ∷ a / 2 ^ 32 % 2 ^ 16
    ∷ a / 2 ^ 16 % 2 ^ 16
    ∷ a % 2 ^ 16
    ∷ []

-- The zero groups at the front.
zero_run : List ℕ → ℕ
zero_run [] = 0
zero_run (g ∷ gs) = let more = zero_run gs in if g == 0 then suc more else 0

-- Where the first longest run of at least two zero groups starts, and its length. `i` is the place
-- of the list in the address, and the last two arguments are the best run so far.
longest_run : ℕ → List ℕ → ℕ → ℕ → ℕ × ℕ
longest_run i [] at best = (at, best)
longest_run i (g ∷ gs) at best =
    let run = zero_run (g ∷ gs) in
    let better = leb 2 run && ltb best run in
    longest_run (suc i) gs (if better then i else at) (if better then run else best)

join_groups : List ℕ → Text
join_groups [] = []
join_groups (g ∷ []) = in_base 16 g
join_groups (g ∷ h ∷ gs) = in_base 16 g ++ (b':' ∷ join_groups (h ∷ gs))

abbrev take : ℕ → List ℕ → List ℕ
take zero gs = []
take (suc n) [] = []
take (suc n) (g ∷ gs) = g ∷ take n gs

abbrev drop : ℕ → List ℕ → List ℕ
drop zero gs = gs
drop (suc n) [] = []
drop (suc n) (g ∷ gs) = drop n gs

abbrev compress : List ℕ → ℕ × ℕ → Text
compress gs (at, best) =
    if best == 0
    then join_groups gs
    else join_groups (take at gs) ++ (b':' ∷ (b':' ∷ join_groups (drop (at + best) gs)))

-- An IPv4 address in IPv6 keeps its dotted form.
pub ip6_text : ℕ → Text
ip6_text a =
    if a / 2 ^ 32 == 0xffff
    then codes "::ffff:" ++ ip4_text (a % 2 ^ 32)
    else compress (groups a) (longest_run 0 (groups a) 0 0)

unfoldable pub addr_text : Addr → Text
addr_text invalid = codes "invalid IP"
addr_text (ip4 a) = ip4_text a
addr_text (ip6 a) = ip6_text a

abbrev prefix_text_at : Addr → Option ℕ → Text
prefix_text_at a none = codes "invalid Prefix"
prefix_text_at a (some b) = addr_text a ++ (b'/' ∷ in_base 10 b)

pub prefix_text : Prefix → Text
prefix_text p = prefix_text_at p.addr p.bits

-- What holds of digits and of the marks between them holds of an address in print.
module _ (P : ℕ → Type 0) (digits : (d : ℕ) → P (digit d)) (dot : P b'.') (colon : P b':')
    (no_address : All P (codes "invalid IP")) where
  ip4_text-All : (a : ℕ) → All P (ip4_text a)
  unfolding ip4_text
  ip4_text-All a = All-append P (in_base 10 (a / 2 ^ 24 % 256)) _ (in_base-All P digits 10 _) (
    dot,
    All-append P (in_base 10 (a / 2 ^ 16 % 256)) _ (in_base-All P digits 10 _) (
      dot,
      All-append P (in_base 10 (a / 2 ^ 8 % 256)) _ (in_base-All P digits 10 _)
          (dot, in_base-All P digits 10 (a % 256)),
    ),
  )

  join_groups-All : (gs : List ℕ) → All P (join_groups gs)
  unfolding join_groups
  join_groups-All [] = tt
  join_groups-All (g ∷ []) = in_base-All P digits 16 g
  join_groups-All (g ∷ h ∷ gs) =
      All-append P (in_base 16 g) _ (in_base-All P digits 16 g) (colon, join_groups-All (h ∷ gs))

  compress-All : (gs : List ℕ) (run : ℕ × ℕ) → All P (compress gs run)
  compress-All gs (at, best) = elim (Bool-cases (best == 0)) [
    | inl e ↦ rw e (join_groups-All gs)
    | inr e ↦ rw e (
        All-append P (join_groups (take at gs)) _ (join_groups-All (take at gs))
          (colon, (colon, join_groups-All (drop (at + best) gs))))
  ]

  ip6_text-All : (a : ℕ) → All P (ip6_text a)
  unfolding ip6_text
  ip6_text-All a = elim (Bool-cases (a / 2 ^ 32 == 0xffff)) [
    | inl e ↦ rw e (
        All-append P (codes "::ffff:") (ip4_text (a % 2 ^ 32))
          (colon, (colon, (digits 15, (digits 15, (digits 15, (digits 15, (colon, tt)))))))
          (ip4_text-All (a % 2 ^ 32)))
    | inr e ↦ rw e (compress-All (groups a) _)
  ]

  pub addr_text-All : (a : Addr) → All P (addr_text a)
  unfolding addr_text
  addr_text-All invalid = no_address
  addr_text-All (ip4 a) = ip4_text-All a
  addr_text-All (ip6 a) = ip6_text-All a

pub addr_text-OneLine : (a : Addr) → OneLine (addr_text a)
addr_text-OneLine =
    addr_text-All (λ c. c ≢ 10) (digit-above 10 (omega arith)) (omega arith) (omega arith)
      (omega arith)

prefix_text_at-OneLine : (a : Addr) (bits : Option ℕ) → OneLine (prefix_text_at a bits)
prefix_text_at-OneLine a none = omega arith
prefix_text_at-OneLine a (some b) =
    OneLine-append (addr_text a) _ (addr_text-OneLine a) (omega arith, in_base-OneLine 10 b)

pub prefix_text-OneLine : (p : Prefix) → OneLine (prefix_text p)
unfolding prefix_text
prefix_text-OneLine p = prefix_text_at-OneLine p.addr p.bits
