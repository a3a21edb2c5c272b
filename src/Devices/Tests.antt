-- ===== src/Devices/Tests.antt =====
-- The theorems about the commands, at a panel with one server and one device, whose tunnel is down.
use tunploy.Common.{◌≡◌, refl, true, some, [], ◌∷◌, if◌then◌else◌}
use tunploy.Common.Text.{codes}
use tunploy.Apperr.{ok, err, failure}
use tunploy.Wg.Model.{Peer}
use tunploy.Wg.Limits.{has_expired}
use tunploy.Wg.Samples.{office, phone}
use tunploy.Store.Peers.{new_row, set_peer_share, peer_by_id}
use tunploy.Store.Tables.{Row, row_by_id}
use tunploy.Devices.{World, Env, Clock}
use tunploy.Devices.Groups.{update_group, delete_group, reset_group_usage, delete_jobs, reset_jobs}
use tunploy.Devices.Groups.Tunnels.{Concludes}
use tunploy.Devices.Groups.Answers.{Answers, groups-Answer}
use tunploy.Devices.Sharing.{share, shared, gone}
use tunploy.Devices.Sharing.Links.{share-shared}
use tunploy.Event.{for_peer}

abbrev panel : World
panel = record {
  db = record {
    instances = office ∷ [];
    rows = new_row phone ∷ [];
    counters = [];
    usage = [];
    next_instance = 2;
    next_peer = 2;
  };
  events = [];
  applied = [];
}

abbrev env : Env
env = record {
  is_json = λ t. true;
  texts = record {
    bytes = λ z. codes "bytes";
    speed = λ z. codes "speed";
    expiry = λ t. codes "then";
    period = λ p t. codes "this month";
  };
  tunnel = λ w id. some failure;
}

abbrev clock : Clock
clock = record { now = 5_000_000_000; day = 3; month = 1 }

groups-Answer_example :
    Answers env
      ((phone, phone) ∷ [])
      clock
      panel
      (update_group env ((phone, phone) ∷ []) clock panel)
    × Concludes (delete_jobs env (phone ∷ [])) panel (delete_group env (phone ∷ []) panel)
    × Concludes
        (reset_jobs env clock (phone ∷ []))
        panel
        (reset_group_usage env (phone ∷ []) clock panel)
groups-Answer_example = groups-Answer env ((phone, phone) ∷ []) (phone ∷ []) clock panel

abbrev linked : Peer
linked = record phone { share_token = codes "t"; share_expires_at = some 9_000_000_000 }

abbrev linked_panel : World
linked_panel = record {
  db = record panel.db { rows = record (new_row phone) { peer = linked } ∷ [] };
  events =
      record (for_peer (codes "device.shared") office linked) { detail = codes "until then" } ∷ [];
  applied = [];
}

share-phone :
    share env office phone (some 9_000_000_000) (codes "t") clock panel ≡ ok (linked, linked_panel)
unfolding share set_peer_share peer_by_id
share-phone = refl

share-shared_example :
    (r : Row) × (row_by_id panel.db.rows 1 ≡ some r)
    × (linked ≡ record r.peer { share_token = codes "t"; share_expires_at = some 9_000_000_000 })
    × (shared linked_panel.db (codes "t") 6_000_000_000 ≡ (
        if has_expired (some 9_000_000_000) 6_000_000_000 then err gone else ok (office, linked)))
share-shared_example =
    share-shared env office office phone linked (some 9_000_000_000) (codes "t") clock panel
      linked_panel 6_000_000_000 refl share-phone refl
