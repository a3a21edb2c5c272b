-- ===== src/Deploy/Watch.antt =====
-- internal/deploy/watch.go, limits.go and status.go: what the manager finds out by itself.
use tunploy.Common.{
  ℕ, ◌-◌, Bool, true, false, not, ◌&&◌, Option, none, some, List, [], ◌∷◌, ◌++◌, ◌==◌,
  if◌then◌else◌, length, is_empty, find, all, select, eq_text,
}
use tunploy.Common.Int.{pos, eqz}
use tunploy.Common.Show.{int_text}
use tunploy.Common.Text.{Text, codes}
use tunploy.Apperr.{Result, ok, err}
use tunploy.Wg.Model.{Instance, Key}
use tunploy.Wg.Limits.{Block, unblocked, block_expired, block_limit, Traffic, traffic_total}
use tunploy.Wg.Stats.{Stats}
use tunploy.Event.{Event, for_instance, for_peer}
use tunploy.Store.Tables.{Row}
use tunploy.Store.Peers.{on_instance}
use tunploy.Store.Nodes.{Node, node_of}
use tunploy.Store.Traffic.{limit_usage, record_traffic}
use tunploy.Deploy.{
  Container, is_running, list_containers, exec, Manager, Env, M, Blocks, Found, ◌>>=◌, ◌>>◌, pure,
  lift, state, change, put_entry, drop_entry, entry_of, ask, read_clock, host_for, add_event,
}
use tunploy.Deploy.Containers.{blocked_peers, container, apply, attempt}
use tunploy.Deploy.Activity.{PeerChange, observe}

-- State of status.go
pub data State : Type 0 where
  running restarting stopped not_deployed unknown : State

-- Status
pub record ServerStatus : Type 0 where
  pub state : State
  pub error : Text

abbrev status_with : State → Text → ServerStatus
status_with st e = record { state = st; error = e }

-- statusOf
abbrev pub status_of : Container → ServerStatus
status_of ct =
    if eq_text ct.state (codes "running")
    then status_with running []
    else (if eq_text ct.state (codes "restarting")
        then status_with restarting (codes "the container keeps exiting; check its logs")
        else (if eq_text ct.state (codes "exited") && not (eqz ct.exit_code (pos 0))
            then status_with stopped (codes "exited with code " ++ int_text ct.exit_code)
            else status_with stopped []))

abbrev is_down_as : State → Text → Bool
is_down_as restarting e = true
is_down_as stopped e = not (is_empty e)
is_down_as running e = false
is_down_as not_deployed e = false
is_down_as unknown e = false

-- The down of checkHealth: no container is not down.
abbrev pub is_down : Option Container → Bool
is_down none = false
is_down (some ct) = is_down_as (status_of ct).state (status_of ct).error

-- prev[id] of a map of blocks: a missing one reads as no block.
abbrev pub block_of : Blocks → ℕ → Block
block_of bs id = elim (entry_of bs id) [ none ↦ unblocked | some b ↦ b ]

abbrev pub eq_block : Block → Block → Bool
eq_block unblocked unblocked = true
eq_block block_expired block_expired = true
eq_block block_limit block_limit = true
eq_block _ _ = false

abbrev pub has_block : Blocks → ℕ → Block → Bool
has_block bs id b = elim (entry_of bs id) [ none ↦ false | some c ↦ eq_block b c ]

-- maps.Equal
unfoldable pub equal_blocks : Blocks → Blocks → Bool
equal_blocks bs cs = length bs == length cs && all (λ (e : ℕ × Block). has_block cs e.0 e.1) bs

abbrev pub same_blocks : Option Blocks → Blocks → Bool
same_blocks none next = false
same_blocks (some prev) next = equal_blocks prev next

abbrev pub row_of_key : List Row → Key → Option Row
row_of_key rows key = find (λ (r : Row). eq_text r.public_key key) rows

abbrev pub forget_activity : ℕ → Manager → Manager
forget_activity id m = record m { activity = drop_entry id m.activity }

abbrev node_name_of : List Node → ℕ → Text
node_name_of nodes node =
    if node == 0 then [] else elim (node_of nodes node) [ none ↦ [] | some n ↦ n.name ]

-- The event of checkHealth.
abbrev pub health_event : Instance → List Node → Option Container → Event
health_event s nodes ct =
    record (for_instance (codes (if is_down ct then "server.down" else "server.recovered")) s) {
      detail = elim ct [ none ↦ [] | some c ↦ (status_of c).error ];
      node_name = node_name_of nodes s.node_id;
    }

abbrev pub changed : Option Bool → Bool → Bool
changed none down = false
changed (some true) down = not down
changed (some false) down = down

abbrev pub note_health : Instance → Result (Option Container) → Manager → Manager
note_health s (err e) m = m
note_health s (ok ct) m = record m {
  down = put_entry s.id (is_down ct) m.down;
  events =
      if changed (entry_of m.down s.id) (is_down ct)
      then m.events ++ health_event s m.nodes ct ∷ []
      else m.events;
}

module _ (env : Env) where
  -- Status
  abbrev status_found : Result (Option Container) → ServerStatus
  status_found (err e) = status_with unknown (env.error_text e)
  status_found (ok none) = status_with not_deployed []
  status_found (ok (some ct)) = status_of ct

  unfoldable server_status : Instance → M ServerStatus
  server_status s = attempt (host_for env s.node_id >> container env s.node_id s.id) >>= λ found.
      pure (status_found found)

  -- containers
  unfoldable containers : ℕ → M (List Container)
  containers node = host_for env node >> ask env env.on_list node list_containers

  -- blockEvent, whose text reads the clock once more.
  abbrev pub limit_detail : Row → Traffic → ℕ → Text
  limit_detail r used now =
      codes "used "
      ++ env.texts.bytes (traffic_total used)
      ++ codes " of "
      ++ env.texts.bytes r.data_limit
      ++ codes " "
      ++ env.texts.period r.peer now

  unfoldable pub block_event : Instance → Row → Block → Traffic → M Event
  block_event s r block_limit used = read_clock env >>= λ now.
      pure (record (for_peer (codes "device.limit_reached") s r.peer) {
        detail = limit_detail r used now;
      })
  block_event s r block_expired used = pure (for_peer (codes "device.expired") s r.peer)
  block_event s r unblocked used = pure (for_peer (codes "device.unblocked") s r.peer)

  -- The events of the devices whose block differs.
  abbrev pub block_events : Instance → Blocks → Found → List Row → M (Unit {0})
  block_events s prev found [] = pure tt
  block_events s prev found (r ∷ rs) =
      if eq_block (block_of prev r.id) (block_of found.blocks r.id)
      then block_events s prev found rs
      else state >>= λ m.
          block_event s r (block_of found.blocks r.id)
            (limit_usage m.db.usage r (env.month found.now))
          >>= λ e. add_event e >>= λ u. block_events s prev found rs

  abbrev pub after_apply : Instance → Option Blocks → Found → M (Unit {0})
  after_apply s none found = pure tt
  after_apply s (some prev) found = block_events s prev found found.rows

  -- enforceLimits
  unfoldable pub enforce_limits : Instance → M (Unit {0})
  enforce_limits s = blocked_peers env s.id >>= λ found. state >>= λ m.
      (if same_blocks (entry_of m.blocked s.id) found.blocks
        then pure tt
        else (apply env s >> after_apply s (entry_of m.blocked s.id) found))

  -- checkHealth
  unfoldable pub check_health : Instance → M (Unit {0})
  check_health s = attempt (container env s.node_id s.id) >>= λ found. change (note_health s found)

  abbrev pub ended_detail : Option ℕ → M Text
  ended_detail none = pure []
  ended_detail (some t) =
      read_clock env >>= λ now. pure (codes "online for " ++ env.duration (now - t))

  abbrev pub change_event : Instance → PeerChange → Row → Text → Event
  change_event s c r detail =
      record (for_peer (codes (if c.online then "device.connected" else "device.disconnected")) s
        r.peer) { ip = env.endpoint_host c.endpoint; detail = detail }

  abbrev pub report_found : Instance → PeerChange → Option Row → M (Unit {0})
  report_found s c none = pure tt
  report_found s c (some r) =
      (if c.online then pure [] else ended_detail c.online_since) >>= λ detail.
      add_event (change_event s c r detail)

  abbrev pub report_each : Instance → List Row → List PeerChange → M (Unit {0})
  report_each s rows [] = pure tt
  report_each s rows (c ∷ cs) = report_found s c (row_of_key rows c.key) >> report_each s rows cs

  -- reportActivity
  unfoldable pub report_activity : Instance → List PeerChange → M (Unit {0})
  report_activity s changes =
      state >>= λ m. report_each s (select (on_instance s.id) m.db.rows) changes

  abbrev pub show_dump : Instance → Container → M Text
  show_dump s ct =
      ask env env.on_output s.node_id
        (exec ct.name (codes "wg" ∷ codes "show" ∷ codes "wg0" ∷ codes "dump" ∷ []))

  abbrev pub observe_dump : Instance → Text → M Stats
  observe_dump s out = lift (env.parse_dump out) >>= λ stats. read_clock env >>= λ now.
      observe s.id stats s.persistent_keepalive now >>= λ changes.
      report_activity s changes >>= λ u. pure stats

  abbrev pub stats_from : Instance → Option Container → M Stats
  stats_from s none = change (forget_activity s.id) >> pure []
  stats_from s (some ct) =
      if is_running ct
      then show_dump s ct >>= observe_dump s
      else (change (forget_activity s.id) >> pure [])

  -- peerStats, without the Online that observe adds to the statistics.
  unfoldable pub peer_stats : Instance → M Stats
  peer_stats s = container env s.node_id s.id >>= stats_from s

  -- PeerStats
  unfoldable fetch_stats : Instance → M Stats
  fetch_stats s = host_for env s.node_id >> peer_stats s

  abbrev pub record_stats : ℕ → Stats → ℕ → M (Unit {0})
  record_stats id stats now =
      change (λ m. record m { db = record_traffic m.db id stats (env.day now) })

  -- watchInstance
  unfoldable pub watch_instance : Instance → M (Unit {0})
  watch_instance s =
      check_health s
      >> (peer_stats s >>= λ stats.
          read_clock env >>= λ now. record_stats s.id stats now >>= λ u. enforce_limits s)
