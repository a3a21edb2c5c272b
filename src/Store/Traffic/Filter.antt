-- ===== src/Store/Traffic/Filter.antt =====
-- The status that a list is filtered by and the status that a device shows.
use tunploy.Common.{
  ℕ, ◌+◌, ◌-◌, ◌^◌, ◌≤◌, ◌<◌, ◌≡◌, refl, ap, ◌∙◌, ◌↔◌, true, Option, none, some, List, arith, ◌==◌,
  if◌then◌else◌,
}
use tunploy.Common.Int.{pos, ◌≤ℤ◌, add64_pos}
use tunploy.Wg.Limits.{
  Traffic, traffic_total, Status, active, disabled, expired, limit_reached, status, blocked,
  has_expired,
}
use tunploy.Store.Tables.{Row, Usage, to_second}
use tunploy.Store.Traffic.{
  bytes, sum_rx, sum_tx, limit_start, before_rx, before_tx, limit_usage, limit_used, seconds,
  matches_status, expires_by, entry,
}

abbrev IsWholeSecond : Option ℕ → Type 0
IsWholeSecond none = Unit
IsWholeSecond (some t) = to_second t ≡ t

-- What the panel writes about a device: an expiry in whole seconds, a limit of at least 0, and a
-- reset that was taken from the sums.
pub record IsRecorded (us : List Usage) (r : Row) (month : ℕ) : Type 0 where
  pub expiry : IsWholeSecond r.expires_at
  pub limit : pos 0 ≤ℤ r.data_limit
  pub reset_rx : before_rx r (limit_start r month) ≤ sum_rx r.id (limit_start r month) us
  pub reset_tx : before_tx r (limit_start r month) ≤ sum_tx r.id (limit_start r month) us
  pub in_range :
      sum_rx r.id (limit_start r month) us + sum_tx r.id (limit_start r month) us < 2 ^ 63

total_of_entry :
    (a b x y : ℕ)
    → x ≤ a
    → y ≤ b
    → a + b < 2 ^ 63
    → traffic_total (entry (bytes (a - x) (b - y))) ≡ pos (a + b - (x + y))
total_of_entry a b x y h k m = ground (arith, add64_pos (a - x) (b - y), add64_pos 0 0)

before_sum :
    (r : Row) (start : ℕ)
    → before_rx r start + before_tx r start
      ≡ (if r.reset_day == start then r.reset_rx + r.reset_tx else 0)
before_sum r start = ground arith

total_of_usage :
    (us : List Usage) (r : Row) (month : ℕ)
    → IsRecorded us r month
    → traffic_total (limit_usage us r month) ≡ pos (limit_used us r month)
unfolding limit_usage limit_used
total_of_usage us r month h =
    let start = limit_start r month in
    total_of_entry (sum_rx r.id start us) (sum_tx r.id start us) (before_rx r start)
      (before_tx r start) h.reset_rx h.reset_tx h.in_range
    ∙ ap (λ n. pos (sum_rx r.id start us + sum_tx r.id start us - n)) (before_sum r start)

expires_by_lem :
    (e : Option ℕ) (now : ℕ) → IsWholeSecond e → expires_by e (seconds now) ≡ has_expired e now
expires_by_lem none now h = refl
expires_by_lem (some t) now h = ground arith

-- The filter, of a device whose used total is known.
filter_of :
    (us : List Usage) (r : Row) (s : Status) (month now : ℕ) (used : Traffic)
    → traffic_total used ≡ pos (limit_used us r month)
    → pos 0 ≤ℤ r.data_limit
    → expires_by r.expires_at (seconds now) ≡ has_expired r.expires_at now
    → (matches_status us r s month (seconds now) ≡ true) ↔ (status r.peer used now ≡ s)
unfolding matches_status status blocked
filter_of us r active month now used h l e = (λ k. ground arith, λ k. ground arith)
filter_of us r disabled month now used h l e = (λ k. ground arith, λ k. ground arith)
filter_of us r expired month now used h l e = (λ k. ground arith, λ k. ground arith)
filter_of us r limit_reached month now used h l e = (λ k. ground arith, λ k. ground arith)

-- For a device as the panel records it, the SQL filter of a status lets it through exactly when
-- that status is the one computed for it from its limit usage at the same instant.
pub matches_status_iff :
    (us : List Usage) (r : Row) (s : Status) (month now : ℕ)
    → IsRecorded us r month
    → (matches_status us r s month (seconds now) ≡ true)
      ↔ (status r.peer (limit_usage us r month) now ≡ s)
matches_status_iff us r s month now h =
    filter_of us r s month now (limit_usage us r month) (total_of_usage us r month h) h.limit
      (expires_by_lem r.expires_at now h.expiry)
