-- ===== src/Deploy/Blocks.antt =====
-- The map of blocks of internal/deploy/limits.go holds each device once.
use tunploy.Common.{
  ℕ, ◌≡◌, refl, sym, ◌≢◌, inl, inr, Bool, true, some, List, [], ◌∷◌, arith, ==_refl, and_true,
  Bool-cases, length, all, select, All, All-select,
}
use tunploy.Wg.Limits.{Block, unblocked, block_expired, block_limit, is_blocked, blocked}
use tunploy.Store.Tables.{Db, Row}
use tunploy.Store.Traffic.{limit_usage}
use tunploy.Store.Peers.Invariant.{Apart, AllApart}
use tunploy.Deploy.{put_entry, Blocks, blocks_of, entry_of}
use tunploy.Deploy.Watch.{equal_blocks, eq_block, has_block}

pub entry_of-put {ℓ} :
    {V : Type ℓ} (es : List (ℕ × V)) (id : ℕ) (v : V) → entry_of (put_entry id v es) id ≡ some v
entry_of-put [] id v = ground arith
entry_of-put ((i, w) ∷ es) id v = ground (arith, entry_of-put es id v)

pub AllApart-select : (p : Row → Bool) (rs : List Row) → AllApart rs → AllApart (select p rs)
AllApart-select p [] h = tt
AllApart-select p (r ∷ rs) h = elim (Bool-cases (p r)) [
  | inl e ↦ rw e (All-select (Apart r) p rs h.0, AllApart-select p rs h.1)
  | inr e ↦ rw e (AllApart-select p rs h.1)
]

eq_block_refl : (b : Block) → eq_block b b ≡ true
eq_block_refl unblocked = refl
eq_block_refl block_expired = refl
eq_block_refl block_limit = refl

-- An ID that no entry has.
abbrev pub Lacks : ℕ → Blocks → Type 0
Lacks id bs = All (λ (e : ℕ × Block). e.0 ≢ id) bs

abbrev AllKeysApart : Blocks → Type 0
AllKeysApart [] = Unit
AllKeysApart (e ∷ es) = Lacks e.0 es × AllKeysApart es

has_blocks-more :
    (id : ℕ) (b : Block) (bs cs : Blocks)
    → Lacks id cs
    → all (λ (e : ℕ × Block). has_block bs e.0 e.1) cs ≡ true
    → all (λ (e : ℕ × Block). has_block ((id, b) ∷ bs) e.0 e.1) cs ≡ true
has_blocks-more id b bs [] n h = refl
has_blocks-more id b bs ((j, c) ∷ cs) n h =
    let rest = has_blocks-more id b bs cs n.1 (and_true (has_block bs j c) _ h).1 in
    let here = (and_true (has_block bs j c) _ h).0 in ground (arith, n.0)

has_blocks_self :
    (bs : Blocks) → AllKeysApart bs → all (λ (e : ℕ × Block). has_block bs e.0 e.1) bs ≡ true
has_blocks_self [] h = refl
has_blocks_self ((id, b) ∷ bs) h =
    let rest = has_blocks-more id b bs bs h.0 (has_blocks_self bs h.1) in
    let here = eq_block_refl b in ground arith

pub blocks_of-Lacks :
    (db : Db) (r : Row) (rs : List Row) (now month : ℕ)
    → All (Apart r) rs
    → Lacks r.id (blocks_of db rs now month)
unfolding blocks_of
blocks_of-Lacks db r [] now month h = tt
blocks_of-Lacks db r (s ∷ rs) now month h =
    elim (Bool-cases (is_blocked (blocked s.peer (limit_usage db.usage s month) now))) [
      | inl e ↦ rw e ((λ q. h.0.ids (sym q)), blocks_of-Lacks db r rs now month h.1)
      | inr e ↦ rw e (blocks_of-Lacks db r rs now month h.1)
    ]

blocks_of-AllKeysApart :
    (db : Db) (rs : List Row) (now month : ℕ)
    → AllApart rs
    → AllKeysApart (blocks_of db rs now month)
unfolding blocks_of
blocks_of-AllKeysApart db [] now month h = tt
blocks_of-AllKeysApart db (r ∷ rs) now month h =
    elim (Bool-cases (is_blocked (blocked r.peer (limit_usage db.usage r month) now))) [
      | inl e ↦
          rw e (blocks_of-Lacks db r rs now month h.0, blocks_of-AllKeysApart db rs now month h.1)
      | inr e ↦ rw e (blocks_of-AllKeysApart db rs now month h.1)
    ]

-- Two readings with the same blocks are equal as maps.
pub equal_blocks_refl :
    (db : Db) (rs : List Row) (now month : ℕ)
    → AllApart rs
    → equal_blocks (blocks_of db rs now month) (blocks_of db rs now month) ≡ true
unfolding equal_blocks
equal_blocks_refl db rs now month h =
    let bs = blocks_of db rs now month in
    let same = has_blocks_self bs (blocks_of-AllKeysApart db rs now month h) in
    ground (arith, ==_refl (length bs))
