-- ===== src/Store/Traffic/Recording.antt =====
-- What one poll of a server's counters adds to a device's usage.
use tunploy.Common.{
  ℕ, ◌+◌, ◌^◌, ◌≤◌, ◌<◌, ◌≡◌, refl, ap, ◌∙◌, ◌≢◌, inl, inr, true, Option, none, some, List, [], ◌∷◌,
  arith, ◌==◌, Bool-cases, find,
}
use tunploy.Common.Int.{add64_pos}
use tunploy.Wg.Stats.{PeerStats}
use tunploy.Store.Tables.{Row, Counter, Usage, Db}
use tunploy.Store.Peers.{upsert_counter}
use tunploy.Store.Traffic.{
  growth, add_usage, counter_of, measure, add_growth, save_reading, save_handshake, record_peer,
  sum_rx, sum_tx, is_reading,
}

add_usage_sum :
    (id start day a b : ℕ) (us : List Usage)
    → start ≤ day
    → (sum_rx id start (add_usage id day (a, b) us) ≡ sum_rx id start us + a)
      × (sum_tx id start (add_usage id day (a, b) us) ≡ sum_tx id start us + b)
unfolding add_usage sum_rx sum_tx
add_usage_sum id start day a b [] h = ground arith
add_usage_sum id start day a b (u ∷ us) h = ground (arith, add_usage_sum id start day a b us h)

add_usage_other :
    (id id' start day : ℕ) (g : ℕ × ℕ) (us : List Usage)
    → id ≢ id'
    → (sum_rx id' start (add_usage id day g us) ≡ sum_rx id' start us)
      × (sum_tx id' start (add_usage id day g us) ≡ sum_tx id' start us)
unfolding add_usage sum_rx sum_tx
add_usage_other id id' start day (a, b) [] h = ground arith
add_usage_other id id' start day (a, b) (u ∷ us) h =
    ground (arith, add_usage_other id id' start day (a, b) us h)

upsert_counter-find :
    (id rx tx : ℕ) (cs : List Counter)
    → find (λ (c : Counter). c.peer_id == id) (upsert_counter id rx tx cs)
      ≡ some (record { peer_id = id; rx = rx; tx = tx })
upsert_counter-find id rx tx [] = ground arith
upsert_counter-find id rx tx (c ∷ cs) = ground (arith, upsert_counter-find id rx tx cs)

upsert_counter-other :
    (id id' rx tx : ℕ) (cs : List Counter)
    → id ≢ id'
    → find (λ (c : Counter). c.peer_id == id') (upsert_counter id rx tx cs)
      ≡ find (λ (c : Counter). c.peer_id == id') cs
upsert_counter-other id id' rx tx [] h = ground arith
upsert_counter-other id id' rx tx (c ∷ cs) h =
    ground (arith, upsert_counter-other id id' rx tx cs h)

-- The device's usage grows by so much, in both directions.
pub record Gains (id start : ℕ) (gained : ℕ × ℕ) (db db' : Db) : Type 0 where
  pub rx : sum_rx id start db'.usage ≡ sum_rx id start db.usage + gained.0
  pub tx : sum_tx id start db'.usage ≡ sum_tx id start db.usage + gained.1

abbrev pub reading_of : ℕ → PeerStats → Counter
reading_of id st = record { peer_id = id; rx = st.rx; tx = st.tx }

-- Its usage and its counter stay.
pub record Untouched (id start : ℕ) (db db' : Db) : Type 0 where
  pub gains : Gains id start (0, 0) db db'
  pub counter : counter_of db' id ≡ counter_of db id

save_handshake-tables :
    (r : Row) (st : PeerStats) (db : Db)
    → ((save_handshake r st db).usage ≡ db.usage)
      × ((save_handshake r st db).counters ≡ db.counters)
unfolding save_handshake
save_handshake-tables r st db = ground arith

save_reading-usage :
    (id : ℕ) (c : Option Counter) (st : PeerStats) (db : Db)
    → (save_reading id c st db).usage ≡ db.usage
unfolding save_reading
save_reading-usage id c st db = ground arith

found_id :
    (id : ℕ) (cs : List Counter) (c : Counter)
    → find (λ (d : Counter). d.peer_id == id) cs ≡ some c
    → c.peer_id ≡ id
found_id id [] c h = absurd (cc)
found_id id (d ∷ cs) c h = ground (arith, found_id id cs c)

same_reading :
    (id : ℕ) (c : Counter) (st : PeerStats)
    → c.peer_id ≡ id
    → is_reading (some c) st ≡ true
    → c ≡ reading_of id st
same_reading id c st h k = ground arith

save_reading-counter :
    (id : ℕ) (c : Counter) (st : PeerStats) (db : Db)
    → counter_of db id ≡ some c
    → counter_of (save_reading id (some c) st db) id ≡ some (reading_of id st)
unfolding save_reading
save_reading-counter id c st db h = elim (Bool-cases (is_reading (some c) st)) [
  | inl t ↦ ground (arith, same_reading id c st (found_id id db.counters c h) t)
  | inr f ↦ ground (arith, upsert_counter-find id st.rx st.tx db.counters)
]

add_growth-Gains :
    (id start day a b : ℕ) (db : Db)
    → start ≤ day
    → a + b < 2 ^ 63
    → Gains id start (a, b) db (add_growth id day (a, b) db)
add_growth-Gains id start day a b db h k = record {
  rx = ground (arith, add64_pos a b, add_usage_sum id start day a b db.usage h);
  tx = ground (arith, add64_pos a b, add_usage_sum id start day a b db.usage h);
}

add_growth-counters :
    (id day : ℕ) (g : ℕ × ℕ) (db : Db) → (add_growth id day g db).counters ≡ db.counters
add_growth-counters id day (a, b) db = ground arith

growth_bound :
    (rx tx : ℕ) (st : PeerStats)
    → st.rx + st.tx < 2 ^ 63
    → (growth rx tx st).0 + (growth rx tx st).1 < 2 ^ 63
unfolding growth
growth_bound rx tx st h = ground arith

Gains-usage :
    (id start : ℕ) (g : ℕ × ℕ) (db db' db'' : Db)
    → db''.usage ≡ db'.usage
    → Gains id start g db db'
    → Gains id start g db db''
Gains-usage id start g db db' db'' e h = record {
  rx = ap (sum_rx id start) e ∙ h.rx;
  tx = ap (sum_tx id start) e ∙ h.tx;
}

Gains-none : (id start : ℕ) (db db' : Db) → db'.usage ≡ db.usage → Gains id start (0, 0) db db'
Gains-none id start db db' e = record {
  rx = ground (arith, ap (sum_rx id start) e);
  tx = ground (arith, ap (sum_tx id start) e);
}

save_reading-other :
    (id id' : ℕ) (c : Option Counter) (st : PeerStats) (db : Db)
    → id ≢ id'
    → counter_of (save_reading id c st db) id' ≡ counter_of db id'
unfolding save_reading
save_reading-other id id' c st db h =
    ground (arith, upsert_counter-other id id' st.rx st.tx db.counters h)

measure-counters :
    (id day : ℕ) (c : Option Counter) (st : PeerStats) (db : Db)
    → (measure id day c st db).counters ≡ db.counters
unfolding measure
measure-counters id day none st db = refl
measure-counters id day (some c) st db = add_growth-counters id day (growth c.rx c.tx st) db

add_growth-other :
    (id id' start day : ℕ) (g : ℕ × ℕ) (db : Db)
    → id ≢ id'
    → Gains id' start (0, 0) db (add_growth id day g db)
add_growth-other id id' start day (a, b) db h = record {
  rx = ground (arith, add_usage_other id id' start day (a, b) db.usage h);
  tx = ground (arith, add_usage_other id id' start day (a, b) db.usage h);
}

measure-other :
    (id id' start day : ℕ) (c : Option Counter) (st : PeerStats) (db : Db)
    → id ≢ id'
    → Gains id' start (0, 0) db (measure id day c st db)
unfolding measure
measure-other id id' start day none st db h = Gains-none id' start db db refl
measure-other id id' start day (some c) st db h =
    add_growth-other id id' start day (growth c.rx c.tx st) db h

-- The three steps of a poll touch one table each.
record_peer-usage :
    (r : Row) (c : Option Counter) (st : PeerStats) (day : ℕ) (db : Db)
    → (record_peer r c (some st) day db).usage ≡ (measure r.id day c st db).usage
unfolding record_peer
record_peer-usage r c st day db =
    (save_handshake-tables r st (save_reading r.id c st (measure r.id day c st db))).0
    ∙ save_reading-usage r.id c st (measure r.id day c st db)

record_peer-counter :
    (r : Row) (c : Option Counter) (st : PeerStats) (id day : ℕ) (db : Db)
    → counter_of (record_peer r c (some st) day db) id
      ≡ counter_of (save_reading r.id c st (measure r.id day c st db)) id
unfolding record_peer
record_peer-counter r c st id day db =
    ap (find (λ (d : Counter). d.peer_id == id))
      (save_handshake-tables r st (save_reading r.id c st (measure r.id day c st db))).1

-- One poll of one device, whose counter was read before.
pub record_peer_self :
    (r : Row) (c : Counter) (st : PeerStats) (start day : ℕ) (db : Db)
    → start ≤ day
    → st.rx + st.tx < 2 ^ 63
    → counter_of db r.id ≡ some c
    → Gains r.id start (growth c.rx c.tx st) db (record_peer r (some c) (some st) day db)
      × (counter_of (record_peer r (some c) (some st) day db) r.id ≡ some (reading_of r.id st))
unfolding measure
record_peer_self r c st start day db h k e =
    let m = add_growth r.id day (growth c.rx c.tx st) db in
    let same =
      ap (find (λ (d : Counter). d.peer_id == r.id)) (measure-counters r.id day (some c) st db) in
    (
      Gains-usage r.id start (growth c.rx c.tx st) db m (record_peer r (some c) (some st) day db)
          (record_peer-usage r (some c) st day db)
          (add_growth-Gains r.id start day (growth c.rx c.tx st).0 (growth c.rx c.tx st).1 db h
            (growth_bound c.rx c.tx st k)),
      record_peer-counter r (some c) st r.id day db ∙ save_reading-counter r.id c st m (same ∙ e),
    )

pub record_peer_other :
    (r : Row) (c : Option Counter) (st : Option PeerStats) (id start day : ℕ) (db : Db)
    → r.id ≢ id
    → Untouched id start db (record_peer r c st day db)
unfolding record_peer
record_peer_other r c none id start day db h = record {
  gains = Gains-none id start db (record_peer r c none day db) (ground arith);
  counter = ground (arith, upsert_counter-other r.id id 0 0 db.counters h);
}
record_peer_other r c (some st) id start day db h =
    let m = measure r.id day c st db in
    record {
      gains =
          Gains-usage id start (0, 0) db m (record_peer r c (some st) day db)
            (record_peer-usage r c st day db) (measure-other r.id id start day c st db h);
      counter =
          record_peer-counter r c st id day db
          ∙ save_reading-other r.id id c st m h
          ∙ ap (find (λ (d : Counter). d.peer_id == id)) (measure-counters r.id day c st db);
    }
