-- ===== src/Store/Traffic/Poll.antt =====
-- One poll of a whole server, seen by one of its devices.
use tunploy.Common.{
  ℕ, ◌+◌, ◌^◌, ◌≤◌, ◌<◌, ◌≡◌, refl, sym, ap, ap₂, subst, ◌∙◌, ◌≢◌, ◌⊎◌, inl, inr, Bool, true,
  Option, some, List, [], ◌∷◌, arith, ◌==◌, ==_refl, Bool-cases, select, All, All-select, All-mono,
}
use tunploy.Wg.Stats.{PeerStats, Stats, stats_of}
use tunploy.Store.Tables.{Row, Counter, Db, row_by_id}
use tunploy.Store.Peers.{on_instance}
use tunploy.Store.Peers.Invariant.{Apart, AllApart}
use tunploy.Store.Traffic.{
  growth, counter_of, record_peer, record_rows, record_traffic, sum_rx, sum_tx,
}
use tunploy.Store.Traffic.Recording.{
  Gains, Untouched, reading_of, record_peer_self, record_peer_other,
}

abbrev HasOtherId : ℕ → Row → Type 0
HasOtherId id q = q.id ≢ id

Gains-trans :
    (id start : ℕ) (a b : ℕ × ℕ) (db db' db'' : Db)
    → Gains id start a db db'
    → Gains id start b db' db''
    → Gains id start (a.0 + b.0, a.1 + b.1) db db''
Gains-trans id start a b db db' db'' h k = record {
  rx = omega (arith, h.rx, k.rx);
  tx = omega (arith, h.tx, k.tx);
}

Gains-after :
    (id start : ℕ) (g : ℕ × ℕ) (db db' db'' : Db)
    → Gains id start (0, 0) db db'
    → Gains id start g db' db''
    → Gains id start g db db''
Gains-after id start g db db' db'' h k = record {
  rx = omega (arith, h.rx, k.rx);
  tx = omega (arith, h.tx, k.tx);
}

record_rows_others :
    (read : Db) (rs : List Row) (stats : Stats) (id start day : ℕ) (db : Db)
    → All (HasOtherId id) rs
    → Untouched id start db (record_rows read rs stats day db)
unfolding record_rows
record_rows_others read [] stats id start day db h = record {
  gains = record { rx = omega arith; tx = omega arith };
  counter = refl;
}
record_rows_others read (q ∷ rs) stats id start day db h =
    let c = counter_of read q.id in
    let st = stats_of stats q.public_key in
    let one = record_peer_other q c st id start day db h.0 in
    let rest = record_rows_others read rs stats id start day (record_peer q c st day db) h.1 in
    record {
      gains =
          Gains-trans id start (0, 0) (0, 0) db (record_peer q c st day db)
            (record_rows read rs stats day (record_peer q c st day db)) one.gains rest.gains;
      counter = rest.counter ∙ one.counter;
    }

-- What a device with a counter and a reading gets.
abbrev IsMeasured : ℕ → ℕ → Counter → PeerStats → Db → Db → Type 0
IsMeasured id start c st db db' =
    Gains id start (growth c.rx c.tx st) db db' × (counter_of db' id ≡ some (reading_of id st))

record_rows_head :
    (read : Db) (q : Row) (rs : List Row) (stats : Stats) (st : PeerStats) (c : Counter)
    (start day : ℕ) (db : Db)
    → All (Apart q) rs
    → stats_of stats q.public_key ≡ some st
    → counter_of read q.id ≡ some c
    → counter_of db q.id ≡ some c
    → start ≤ day
    → st.rx + st.tx < 2 ^ 63
    → IsMeasured q.id start c st db (record_rows read (q ∷ rs) stats day db)
unfolding record_rows
record_rows_head read q rs stats st c start day db ha hs hr hd hl hb =
    let poll = λ (o : Option Counter) (t : Option PeerStats). record_peer q o t day db in
    let one = record_peer_self q c st start day db hl hb hd in
    let same : poll (counter_of read q.id) (stats_of stats q.public_key) ≡ poll (some c) (some st) =
      ap₂ poll hr hs in
    let db' = record_peer q (counter_of read q.id) (stats_of stats q.public_key) day db in
    let rest =
      record_rows_others read rs stats q.id start day db'
        (All-mono (Apart q) (HasOtherId q.id) rs (λ s k e. k.ids (sym e)) ha) in
    (
      record {
        rx = rest.gains.rx ∙ ground (arith, ap (λ d. sum_rx q.id start d.usage) same, one.0.rx);
        tx = rest.gains.tx ∙ ground (arith, ap (λ d. sum_tx q.id start d.usage) same, one.0.tx);
      },
      rest.counter ∙ ap (λ d. counter_of d q.id) same ∙ one.1,
    )

record_rows_of :
    (read : Db) (rs : List Row) (stats : Stats) (r : Row) (st : PeerStats) (c : Counter)
    (id start day : ℕ) (db : Db)
    → AllApart rs
    → row_by_id rs id ≡ some r
    → stats_of stats r.public_key ≡ some st
    → counter_of read id ≡ some c
    → counter_of db id ≡ some c
    → start ≤ day
    → st.rx + st.tx < 2 ^ 63
    → IsMeasured id start c st db (record_rows read rs stats day db)
unfolding record_rows
record_rows_of read [] stats r st c id start day db ha hf hs hr hd hl hb = absurd (cc)
record_rows_of read (q ∷ rs) stats r st c id start day db ha hf hs hr hd hl hb =
    elim (Bool-cases (q.id == id)) [
      | inl here ↦
          let e : q.id ≡ id = ground arith in
          let same : q ≡ r = ground arith in
          subst (λ i. IsMeasured i start c st db (record_rows read (q ∷ rs) stats day db)) e
            (record_rows_head read q rs stats st c start day db ha.0
              (ap (λ (s : Row). stats_of stats s.public_key) same ∙ hs)
              (ap (counter_of read) e ∙ hr) (ap (counter_of db) e ∙ hd) hl hb)
      | inr away ↦
          let other : q.id ≢ id = (λ e. ground arith) in
          let o = counter_of read q.id in
          let t = stats_of stats q.public_key in
          let one = record_peer_other q o t id start day db other in
          let rest =
            record_rows_of read rs stats r st c id start day (record_peer q o t day db) ha.1
              (ground arith) hs hr (one.counter ∙ hd) hl hb in
          (
            Gains-after id start (growth c.rx c.tx st) db (record_peer q o t day db)
                (record_rows read rs stats day (record_peer q o t day db)) one.gains rest.0,
            rest.1,
          )
    ]

AllApart-select : (p : Row → Bool) (rs : List Row) → AllApart rs → AllApart (select p rs)
AllApart-select p [] h = tt
AllApart-select p (r ∷ rs) h =
    ground (arith, AllApart-select p rs h.1, All-select (Apart r) p rs h.0)

row_by_id-select :
    (p : Row → Bool) (rs : List Row) (id : ℕ) (r : Row)
    → row_by_id rs id ≡ some r
    → p r ≡ true
    → row_by_id (select p rs) id ≡ some r
row_by_id-select p [] id r h k = absurd (cc)
row_by_id-select p (q ∷ rs) id r h k = ground (arith, row_by_id-select p rs id r)

-- What the traffic since the last reading is: the difference, or the whole new reading when either
-- counter dropped, since both then restarted from zero.
pub record Grew (c : Counter) (st : PeerStats) (gained : ℕ × ℕ) : Type 0 where
  pub went_on : c.rx ≤ st.rx → c.tx ≤ st.tx → (gained.0 + c.rx ≡ st.rx) × (gained.1 + c.tx ≡ st.tx)
  pub restarted : (st.rx < c.rx) ⊎ (st.tx < c.tx) → (gained.0 ≡ st.rx) × (gained.1 ≡ st.tx)

growth-Grew : (c : Counter) (st : PeerStats) → Grew c st (growth c.rx c.tx st)
unfolding growth
growth-Grew c st = record { went_on = λ h k. ground arith; restarted = λ h. ground arith }

-- A poll of a server adds to a device's usage, over any days up to the day of the poll, what its
-- counters grew by since the last reading, or the whole new reading when a counter dropped; and the
-- new reading takes the place of the last. The device is on the server, has a last reading, and has
-- a new one that stays below 2^63 in total; the devices have different IDs, keys and addresses.
pub record_traffic_lem :
    (db : Db) (stats : Stats) (r : Row) (st : PeerStats) (c : Counter) (id start day : ℕ)
    → AllApart db.rows
    → row_by_id db.rows id ≡ some r
    → stats_of stats r.public_key ≡ some st
    → counter_of db id ≡ some c
    → start ≤ day
    → st.rx + st.tx < 2 ^ 63
    → (gained : ℕ × ℕ) × Grew c st gained
      × Gains id start gained db (record_traffic db r.instance_id stats day)
      × (counter_of (record_traffic db r.instance_id stats day) id ≡ some (reading_of id st))
unfolding record_traffic
record_traffic_lem db stats r st c id start day ha hf hs hc hl hb =
    let here = on_instance r.instance_id in
    let measured =
      record_rows_of db (select here db.rows) stats r st c id start day db
        (AllApart-select here db.rows ha)
        (row_by_id-select here db.rows id r hf (==_refl r.instance_id)) hs hc hc hl hb in
    (growth c.rx c.tx st, growth-Grew c st, measured.0, measured.1)
