-- ===== src/Wg/Stats.antt =====
-- internal/wg/stats.go: what WireGuard reports of a device. The counters are unsigned; ParseDump
-- refuses those that do not fit an int64.
use tunploy.Common.{ℕ, Bool, Option, none, some, List, [], ◌∷◌, if◌then◌else◌, eq_text}
use tunploy.Common.Text.{Text}
use tunploy.Wg.Model.{Key}

pub record PeerStats : Type 0 where
  pub endpoint : Text
  pub latest_handshake : Option ℕ
  pub rx : ℕ
  pub tx : ℕ
  pub online : Bool

-- map[Key]PeerStats
abbrev pub Stats : Type 0
Stats = List (Key × PeerStats)

abbrev pub stats_of : Stats → Key → Option PeerStats
stats_of [] key = none
stats_of ((k, st) ∷ stats) key = if eq_text k key then some st else stats_of stats key
