-- ===== src/Store/Tables.antt =====
-- The tables behind internal/store (internal/store/migrations), with their columns decoded: keys,
-- addresses and lists are stored as text that reads back as the value. An error rolls back, so an
-- operation that fails returns no database; failures of SQLite itself are left out.
use tunploy.Common.{
  ℕ, ◌+◌, ◌*◌, ◌/◌, Bool, ◌&&◌, Option, none, some, List, map, leb, ◌==◌, if◌then◌else◌, find,
  eq_text,
}
use tunploy.Common.Text.{Text}
use tunploy.Wg.Model.{Instance, Peer}

-- A row of wg_peers. Days are numbered in order, and day 0 stands for no reset ('').
pub record Row : Type 0 where
  pub peer : Peer
  pub open peer use *
  pub reset_day : ℕ
  pub reset_rx : ℕ
  pub reset_tx : ℕ

-- Bytes are counted by natural numbers: SQLite's sums are exact below 2^63.
pub record Counter : Type 0 where
  pub peer_id : ℕ
  pub rx : ℕ
  pub tx : ℕ

pub record Usage : Type 0 where
  pub peer_id : ℕ
  pub day : ℕ
  pub rx : ℕ
  pub tx : ℕ

pub record Db : Type 0 where
  pub instances : List Instance
  pub rows : List Row
  pub counters : List Counter
  pub usage : List Usage
  -- The AUTOINCREMENT sequences: an ID is never given out twice.
  pub next_instance : ℕ
  pub next_peer : ℕ

-- The instant that is left of one that is stored in whole seconds.
abbrev pub to_second : ℕ → ℕ
to_second t = t / 1_000_000_000 * 1_000_000_000

-- nullTime, and timeOf on the way back.
abbrev pub null_time : Option ℕ → Option ℕ
null_time none = none
null_time (some t) = some (to_second t)

-- COLLATE NOCASE folds ASCII letters only.
abbrev pub lower : ℕ → ℕ
lower c = if leb b'A' c && leb c b'Z' then c + 32 else c

abbrev pub same_name : Text → Text → Bool
same_name s t = eq_text (map lower s) (map lower t)

abbrev pub instance_by_id : List Instance → ℕ → Option Instance
instance_by_id instances id = find (λ s. s.id == id) instances

abbrev pub row_by_id : List Row → ℕ → Option Row
row_by_id rows id = find (λ (r : Row). r.id == id) rows
