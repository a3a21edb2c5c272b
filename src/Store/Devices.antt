-- ===== src/Store/Devices.antt =====
-- internal/store/devices.go: the list of devices across servers, in pages.
use tunploy.Common.{
  ℕ, zero, suc, Bool, true, ◌&&◌, ◌||◌, Option, none, some, List, [], ◌∷◌, map, ltb, ◌==◌, is_empty,
  select, eq_text,
}
use tunploy.Common.Text.{Text}
use tunploy.Wg.Model.{Peer}
use tunploy.Wg.Limits.{Status}
use tunploy.Store.Tables.{Db, Row, Usage}
use tunploy.Store.Traffic.{matches_status, seconds}

pub record DeviceFilter : Type 0 where
  -- 0 for any server.
  pub instance_id : ℕ
  pub external_id : Text
  pub status : Option Status
  -- Only devices with a larger ID, for paging.
  pub after_id : ℕ
  pub limit : ℕ

abbrev has_status : List Usage → Row → Option Status → ℕ → ℕ → Bool
has_status us r none month at = true
has_status us r (some s) month at = matches_status us r s month at

-- The WHERE clause.
is_listed : List Usage → DeviceFilter → ℕ → ℕ → Row → Bool
is_listed us f month at r =
    ltb f.after_id r.id
    && (f.instance_id == 0 || r.instance_id == f.instance_id)
    && (is_empty f.external_id || eq_text r.external_id f.external_id)
    && has_status us r f.status month at

abbrev first_rows : ℕ → List Row → List Row
first_rows zero rs = []
first_rows (suc n) [] = []
first_rows (suc n) (r ∷ rs) = r ∷ first_rows n rs

-- Devices. The table holds its rows in the order of their IDs.
devices : Db → DeviceFilter → ℕ → ℕ → List Peer
devices db f month now =
    map (λ (r : Row). r.peer)
      (first_rows f.limit (select (is_listed db.usage f month (seconds now)) db.rows))
