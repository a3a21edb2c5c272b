-- ===== src/Store/Traffic/Limit.antt =====
-- A reset starts the count toward a device's limit again from zero.
use tunploy.Common.{
  ℕ, ◌+◌, ◌-◌, ◌^◌, ◌≤◌, ◌<◌, ◌≡◌, refl, ap, ap₂, ◌∙◌, inl, inr, none, some, List, [], ◌∷◌, arith,
  ◌==◌, Bool-cases, update_where,
}
use tunploy.Common.Int.{add64_pos}
use tunploy.Apperr.{ok, ◌>>=◌, >>=-eq-ok}
use tunploy.Wg.Model.{Peer, Period, unset, monthly, total, other}
use tunploy.Store.Tables.{Row, Usage, Db, row_by_id}
use tunploy.Store.Peers.{or_missing, update_row, peer_by_id}
use tunploy.Store.Peers.ReadBack.{found_after}
use tunploy.Store.Traffic.{
  bytes, entry, limit_start_of, limit_usage, before_rx, before_tx, reset_row, reset_peer_usage,
  sum_rx, sum_tx, usage_on, rx_or_zero, tx_or_zero,
}
use tunploy.Store.Traffic.Recording.{Gains}

-- The device's usage: one row for a day, and none after the day.
abbrev IsUpTo : ℕ → ℕ → List Usage → Type 0
IsUpTo id day [] = Unit
IsUpTo id day (u ∷ us) =
    (u.peer_id ≡ id → (u.day ≤ day) × (u.day ≡ day → usage_on us id day ≡ none)) × IsUpTo id day us

sum_none :
    (id day : ℕ) (us : List Usage)
    → IsUpTo id day us
    → usage_on us id day ≡ none
    → (sum_rx id day us ≡ 0) × (sum_tx id day us ≡ 0)
unfolding sum_rx sum_tx
sum_none id day [] h e = (refl, refl)
sum_none id day (u ∷ us) h e = ground (arith, sum_none id day us h.1)

sum_of_day :
    (id day : ℕ) (us : List Usage)
    → IsUpTo id day us
    → (sum_rx id day us ≡ rx_or_zero (usage_on us id day))
      × (sum_tx id day us ≡ tx_or_zero (usage_on us id day))
unfolding sum_rx sum_tx
sum_of_day id day [] h = (refl, refl)
sum_of_day id day (u ∷ us) h = ground (arith, sum_of_day id day us h.1, sum_none id day us h.1)

start_of_reset : (p : Period) (day month : ℕ) → month ≤ day → limit_start_of p day month ≡ day
start_of_reset unset day month h = omega arith
start_of_reset monthly day month h = omega arith
start_of_reset total day month h = refl
start_of_reset (other s) day month h = omega arith

row_by_id-update :
    (f : Row → Row) (rows : List Row) (id : ℕ) (r : Row)
    → (f r).id ≡ r.id
    → row_by_id rows id ≡ some r
    → row_by_id (update_where (λ (q : Row). q.id == id) f rows) id ≡ some (f r)
row_by_id-update f [] id r k h = absurd (cc)
row_by_id-update f (q ∷ rows) id r k h = elim (Bool-cases (q.id == id)) [
  | inl here ↦ (let e : q ≡ r = ground arith in ground arith)
  | inr away ↦ ground (arith, row_by_id-update f rows id r k)
]

-- The database after a reset.
abbrev pub after_reset : Db → ℕ → ℕ → ℕ → Db
after_reset db id now day = update_row (reset_row db.usage now day) id db

-- A reset of a device that exists returns it, and writes no usage.
reset_peer_usage_ok :
    (db : Db) (r : Row) (id now day : ℕ)
    → row_by_id db.rows id ≡ some r
    → reset_peer_usage db id now day
      ≡ ok ((reset_row db.usage now day r).peer, after_reset db id now day)
unfolding reset_peer_usage peer_by_id
reset_peer_usage_ok db r id now day h =
    ground (arith, row_by_id-update (reset_row db.usage now day) db.rows id r refl h)

entry_small : (a b : ℕ) → a + b < 2 ^ 63 → entry (bytes a b) ≡ bytes a b
entry_small a b h = ground (arith, add64_pos a b)

-- What was there before the reset is taken off again.
left_of : (sum before n : ℕ) → sum ≡ before + n → sum - before ≡ n
left_of sum before n h = omega arith

limit_usage_of :
    (db db' : Db) (r : Row) (now day month a b : ℕ)
    → month ≤ day
    → IsUpTo r.id day db.usage
    → Gains r.id day (a, b) db db'
    → a + b < 2 ^ 63
    → limit_usage db'.usage (reset_row db.usage now day r) month ≡ bytes a b
unfolding limit_usage
limit_usage_of db db' r now day month a b hm hu hg hb =
    let r' = reset_row db.usage now day r in
    let e = start_of_reset r.limit_period day month hm in
    let old = sum_of_day r.id day db.usage hu in
    let rx : sum_rx r.id day db'.usage - before_rx r' day ≡ a =
      left_of (sum_rx r.id day db'.usage) (before_rx r' day) a (ground (arith, hg.rx, old.0)) in
    let tx : sum_tx r.id day db'.usage - before_tx r' day ≡ b =
      left_of (sum_tx r.id day db'.usage) (before_tx r' day) b (ground (arith, hg.tx, old.1)) in
    ap
      (λ s. entry (
        bytes (sum_rx r.id s db'.usage - before_rx r' s)
          (sum_tx r.id s db'.usage - before_tx r' s)))
      e
    ∙ ap₂ (λ x y. entry (bytes x y)) rx tx
    ∙ entry_small a b hb

-- A reset of a device that exists succeeds and keeps the whole usage history. In a month that began
-- on or before the reset's day, what counts toward the limit is then exactly what the device has
-- used from the reset on, while that is below 2^63 bytes, when none of its usage is dated after the
-- reset's day and at most one of its rows has that day.
pub reset_peer_usage_lem :
    (db db' : Db) (r : Row) (now day month a b : ℕ)
    → row_by_id db.rows r.id ≡ some r
    → IsUpTo r.id day db.usage
    → month ≤ day
    → Gains r.id day (a, b) (after_reset db r.id now day) db'
    → a + b < 2 ^ 63
    → (reset_peer_usage db r.id now day
        ≡ ok ((reset_row db.usage now day r).peer, after_reset db r.id now day))
      × ((after_reset db r.id now day).usage ≡ db.usage)
      × (limit_usage db'.usage (reset_row db.usage now day r) month ≡ bytes a b)
reset_peer_usage_lem db db' r now day month a b hr hu hm hg hb = (
  reset_peer_usage_ok db r r.id now day hr,
  refl,
  limit_usage_of (after_reset db r.id now day) db' r now day month a b hm hu hg hb,
)

-- A reset returns the device as it is found afterwards.
pub reset_peer_usage-found :
    (db db' : Db) (id now day : ℕ) (p : Peer)
    → reset_peer_usage db id now day ≡ ok (p, db')
    → peer_by_id db' id ≡ ok p
unfolding reset_peer_usage
reset_peer_usage-found db db' id now day p h =
    let next = update_row (reset_row db.usage now day) id db in
    let (r, known, made) =
      >>=-eq-ok (or_missing (row_by_id db.rows id)) (λ r. peer_by_id next id >>= λ q. ok (q, next))
        h in
    found_after next db' id p made
