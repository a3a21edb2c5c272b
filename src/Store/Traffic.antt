-- ===== src/Store/Traffic.antt =====
-- internal/store/traffic.go: usage from WireGuard's counters, and what counts toward a limit.
pub mod Recording
pub mod Poll
pub mod Limit
pub mod Filter
use tunploy.Common.{
  ℕ, zero, suc, ◌+◌, ◌-◌, ◌*◌, ◌/◌, ◌%◌, ◌^◌, ◌≤◌, ◌<◌, ◌≡◌, refl, sym, ap, ap₂, subst, ◌∙◌, ◌≢◌,
  ◌↔◌, ◌⊎◌, inl, inr, Bool, true, false, not, ◌&&◌, ◌||◌, Option, none, some, List, [], ◌∷◌, ◌++◌,
  map, append_assoc, append-nil, arith, ltb, leb, ◌==◌, if◌then◌else◌, ltb→lt, lt→ltb, leb→le,
  le→leb, ==_iff, ==_refl, tests, and_true, Bool-cases, Option-cases, is_some, length,
  length-append, replicate, is_empty, find, any, all, select, update_where, All, All-append,
  All-select, All-find, All-update_where, All-mono, mem, mem-append, eq_text, eq_text_refl,
  eq_text_sound, get_or, set, length-set, get_or-set_self,
}
use tunploy.Common.Int.{
  ℤ, pos, negsuc, pos_part, neg_part, sub_ℕ, ◌+ℤ◌, ◌-ℤ◌, ◌≤ℤ◌, ◌<ℤ◌, ltz, lez, eqz, from_bits64,
  wrap64, add64, sub64, wrap64_pos, add64_pos, sub64_pos, eqz→eq, eqz_refl,
}
use tunploy.Apperr.{Result, ok, err, ◌>>=◌}
use tunploy.Wg.Model.{Peer, Period, unset, monthly, total, other, Key}
use tunploy.Wg.Limits.{Traffic, traffic_total, Status, active, disabled, expired, limit_reached}
use tunploy.Wg.Stats.{PeerStats, Stats, stats_of}
use tunploy.Store.Tables.{Row, Counter, Usage, Db, to_second, row_by_id}
use tunploy.Store.Peers.{or_missing, on_instance, set_counters, update_row, peer_by_id}
use Prim.Native.Nat.{max}

abbrev pub bytes : ℕ → ℕ → Traffic
bytes rx tx = record { rx = pos rx; tx = pos tx }

-- A drop in either counter means both restarted from zero.
pub growth : ℕ → ℕ → PeerStats → ℕ × ℕ
growth rx tx st = if ltb st.rx rx || ltb st.tx tx then (st.rx, st.tx) else (st.rx - rx, st.tx - tx)

-- The upsert into wg_peer_usage.
pub add_usage : ℕ → ℕ → ℕ × ℕ → List Usage → List Usage
add_usage id day (rx, tx) [] = record { peer_id = id; day = day; rx = rx; tx = tx } ∷ []
add_usage id day (rx, tx) (u ∷ us) =
    if u.peer_id == id && u.day == day
    then record u { rx = u.rx + rx; tx = u.tx + tx } ∷ us
    else u ∷ add_usage id day (rx, tx) us

abbrev pub counter_of : Db → ℕ → Option Counter
counter_of db id = find (λ c. c.peer_id == id) db.counters

abbrev pub add_growth : ℕ → ℕ → ℕ × ℕ → Db → Db
add_growth id day (rx, tx) db =
    if ltz (pos 0) (traffic_total (bytes rx tx))
    then record db { usage = add_usage id day (rx, tx) db.usage }
    else db

-- With no earlier reading there is nothing to measure growth from.
pub measure : ℕ → ℕ → Option Counter → PeerStats → Db → Db
measure id day none st db = db
measure id day (some c) st db = add_growth id day (growth c.rx c.tx st) db

abbrev pub is_reading : Option Counter → PeerStats → Bool
is_reading none st = false
is_reading (some c) st = c.rx == st.rx && c.tx == st.tx

pub save_reading : ℕ → Option Counter → PeerStats → Db → Db
save_reading id c st db = if is_reading c st then db else set_counters id st.rx st.tx db

abbrev is_newer : Option ℕ → Option ℕ → Bool
is_newer none old = false
is_newer (some t) none = true
is_newer (some t) (some old) = ltb (to_second old) (to_second t)

abbrev handshake_row : Option ℕ → Row → Row
handshake_row t r = record r { peer = record r.peer { last_handshake = t } }

abbrev second_of : Option ℕ → Option ℕ
second_of none = none
second_of (some t) = some (to_second t)

pub save_handshake : Row → PeerStats → Db → Db
save_handshake r st db =
    if is_newer st.latest_handshake r.last_handshake
    then update_row (handshake_row (second_of st.latest_handshake)) r.id db
    else db

abbrev is_nonzero : Option Counter → Bool
is_nonzero none = false
is_nonzero (some c) = not (c.rx == 0) || not (c.tx == 0)

-- recordPeer, with the device's counters as they were read.
pub record_peer : Row → Option Counter → Option PeerStats → ℕ → Db → Db
record_peer r c none day db = if is_nonzero c then set_counters r.id 0 0 db else db
record_peer r c (some st) day db =
    save_handshake r st (save_reading r.id c st (measure r.id day c st db))

pub record_rows : Db → List Row → Stats → ℕ → Db → Db
record_rows read [] stats day db = db
record_rows read (r ∷ rs) stats day db =
    record_rows read rs stats day
      (record_peer r (counter_of read r.id) (stats_of stats r.public_key) day db)

-- RecordTraffic: the rows and counters are read first.
pub record_traffic : Db → ℕ → Stats → ℕ → Db
record_traffic db instance_id stats day =
    record_rows db (select (on_instance instance_id) db.rows) stats day db

-- SUM over a device's days from one on.
abbrev counts : ℕ → ℕ → Usage → Bool
counts id start u = u.peer_id == id && leb start u.day

unfoldable pub sum_rx : ℕ → ℕ → List Usage → ℕ
sum_rx id start [] = 0
sum_rx id start (u ∷ us) = (if counts id start u then u.rx else 0) + sum_rx id start us

unfoldable pub sum_tx : ℕ → ℕ → List Usage → ℕ
sum_tx id start [] = 0
sum_tx id start (u ∷ us) = (if counts id start u then u.tx else 0) + sum_tx id start us

abbrev has_usage : Db → ℕ → ℕ → Bool
has_usage db id start = any (counts id start) db.usage

-- MonthUsage, at one device of a server; a device with no traffic this month is absent from the map.
month_usage : Db → ℕ → ℕ → ℕ → Option Traffic
month_usage db instance_id month id =
    if any (λ (r : Row). r.id == id && on_instance instance_id r) db.rows && has_usage db id month
    then some (bytes (sum_rx id month db.usage) (sum_tx id month db.usage))
    else none

-- limitStart: the first day that counts, given the first day of the month.
abbrev pub limit_start_of : Period → ℕ → ℕ → ℕ
limit_start_of total reset_day month = reset_day
limit_start_of unset reset_day month = max month reset_day
limit_start_of monthly reset_day month = max month reset_day
limit_start_of (other s) reset_day month = max month reset_day

abbrev pub limit_start : Row → ℕ → ℕ
limit_start r month = limit_start_of r.limit_period r.reset_day month

abbrev pub before_rx : Row → ℕ → ℕ
before_rx r start = if r.reset_day == start then r.reset_rx else 0

abbrev pub before_tx : Row → ℕ → ℕ
before_tx r start = if r.reset_day == start then r.reset_tx else 0

-- Only traffic with a positive total gets an entry in the map; a missing one reads as no traffic.
abbrev pub entry : Traffic → Traffic
entry t = if ltz (pos 0) (traffic_total t) then t else bytes 0 0

-- limitUsage, for one device. `max(0, a - b)` is the subtraction of natural numbers.
unfoldable pub limit_usage : List Usage → Row → ℕ → Traffic
limit_usage us r month =
    let start = limit_start r month in
    entry
      (bytes (sum_rx r.id start us - before_rx r start) (sum_tx r.id start us - before_tx r start))

abbrev pub usage_on : List Usage → ℕ → ℕ → Option Usage
usage_on us id day = find (λ u. u.peer_id == id && u.day == day) us

abbrev pub rx_or_zero : Option Usage → ℕ
rx_or_zero none = 0
rx_or_zero (some u) = u.rx

abbrev pub tx_or_zero : Option Usage → ℕ
tx_or_zero none = 0
tx_or_zero (some u) = u.tx

abbrev pub reset_row : List Usage → ℕ → ℕ → Row → Row
reset_row us now day r = record r {
  peer = record r.peer { usage_reset_at = some (to_second now); updated_at = to_second now };
  reset_day = day;
  reset_rx = rx_or_zero (usage_on us r.id day);
  reset_tx = tx_or_zero (usage_on us r.id day);
}

-- ResetPeerUsage
pub reset_peer_usage : Db → ℕ → ℕ → ℕ → Result (Peer × Db)
reset_peer_usage db id now day = or_missing (row_by_id db.rows id) >>= λ r.
    (let db' = update_row (reset_row db.usage now day) id db in
      peer_by_id db' id >>= λ p. ok (p, db'))

-- limitUsed, the SQL expression of internal/store/devices.go's filters.
pub limit_used : List Usage → Row → ℕ → ℕ
limit_used us r month =
    let start = limit_start r month in
    sum_rx r.id start us
    + sum_tx r.id start us
    - (if r.reset_day == start then r.reset_rx + r.reset_tx else 0)

abbrev pub seconds : ℕ → ℕ
seconds t = t / 1_000_000_000

abbrev pub expires_by : Option ℕ → ℕ → Bool
expires_by none at = false
expires_by (some t) at = leb (seconds t) at

abbrev live : Row → ℕ → Bool
live r at = r.enabled && not (expires_by r.expires_at at)

-- The WHERE clause that Devices builds for a status.
pub matches_status : List Usage → Row → Status → ℕ → ℕ → Bool
matches_status us r disabled month at = not r.enabled
matches_status us r expired month at = r.enabled && expires_by r.expires_at at
matches_status us r limit_reached month at =
    live r at && (ltz (pos 0) r.data_limit && lez r.data_limit (pos (limit_used us r month)))
matches_status us r active month at =
    live r at && (eqz r.data_limit (pos 0) || ltz (pos (limit_used us r month)) r.data_limit)
