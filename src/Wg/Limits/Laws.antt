-- ===== src/Wg/Limits/Laws.antt =====
-- The four statuses of a device, and when a block can end.
use tunploy.Common.{ℕ, ◌+◌, ◌^◌, ◌≤◌, ◌<◌, ◌≡◌, subst, ◌↔◌, true, false, Option, none, some, arith}
use tunploy.Common.Int.{pos, ◌≤ℤ◌, ◌<ℤ◌, add64_pos}
use tunploy.Wg.Model.{Peer}
use tunploy.Wg.Limits.{
  blocked, is_blocked, Traffic, traffic_total, has_expired, Status, active, disabled, expired,
  limit_reached, status,
}

-- The device's expiry has come.
abbrev IsPast : Option ℕ → ℕ → Type 0
IsPast none now = ⊥
IsPast (some at) now = at ≤ now

-- The device has a data limit and has used it up.
abbrev IsUsedUp : Peer → Traffic → Type 0
IsUsedUp p used = (pos 0 <ℤ p.data_limit) × (p.data_limit ≤ℤ traffic_total used)

-- What each status says of the device.
abbrev pub Means : Peer → Traffic → ℕ → Status → Type 0
Means p used now disabled = p.enabled ≡ false
Means p used now expired = (p.enabled ≡ true) × IsPast p.expires_at now
Means p used now limit_reached = (p.enabled ≡ true) × (¬ IsPast p.expires_at now) × IsUsedUp p used
Means p used now active = (p.enabled ≡ true) × (¬ IsPast p.expires_at now) × (¬ IsUsedUp p used)

IsPast-of : (e : Option ℕ) (now : ℕ) → has_expired e now ≡ true → IsPast e now
IsPast-of none now h = absurd (cc)
IsPast-of (some at) now h = ground arith

not-IsPast_of : (e : Option ℕ) (now : ℕ) → has_expired e now ≡ false → ¬ IsPast e now
not-IsPast_of none now h = λ k. k
not-IsPast_of (some at) now h = λ k. ground arith

status-Means : (p : Peer) (used : Traffic) (now : ℕ) → Means p used now (status p used now)
unfolding status
status-Means p used now = ground (arith, IsPast-of p.expires_at now, not-IsPast_of p.expires_at now)

Means-status :
    (p : Peer) (used : Traffic) (now : ℕ) (s : Status) → Means p used now s → status p used now ≡ s
unfolding status
Means-status p used now disabled m = ground arith
Means-status p used now expired m = ground (arith, not-IsPast_of p.expires_at now)
Means-status p used now limit_reached m =
    ground (arith, IsPast-of p.expires_at now, not-IsPast_of p.expires_at now)
Means-status p used now active m =
    ground (arith, IsPast-of p.expires_at now, not-IsPast_of p.expires_at now)

-- A device has a status exactly when `Means` says so: disabled when it is turned off; expired when
-- it is on and its expiry has come; limit_reached when it is on, not expired, and has a limit that
-- its int64 total reaches; active when it is on and neither holds.
pub status_iff :
    (p : Peer) (used : Traffic) (now : ℕ) (s : Status)
    → (status p used now ≡ s) ↔ Means p used now s
status_iff p used now s =
    (λ e. subst (Means p used now) e (status-Means p used now), Means-status p used now s)

-- The traffic a device has had, with no overflow.
abbrev pub traffic : ℕ → ℕ → Traffic
traffic rx tx = record { rx = pos rx; tx = pos tx }

has_expired_mono :
    (e : Option ℕ) (now later : ℕ)
    → now ≤ later
    → has_expired e now ≡ true
    → has_expired e later ≡ true
has_expired_mono none now later h k = k
has_expired_mono (some at) now later h k = ground arith

-- While the total stays below 2^63, more traffic and a later time never lift a block.
pub blocked_mono :
    (p : Peer) (rx tx rx' tx' now later : ℕ)
    → rx ≤ rx'
    → tx ≤ tx'
    → rx' + tx' < 2 ^ 63
    → now ≤ later
    → is_blocked (blocked p (traffic rx tx) now) ≡ true
    → is_blocked (blocked p (traffic rx' tx') later) ≡ true
unfolding blocked
blocked_mono p rx tx rx' tx' now later h k m t b =
    ground (arith, add64_pos rx tx, add64_pos rx' tx', has_expired_mono p.expires_at now later)
