-- ===== src/Deploy/Ownership/Watching.antt =====
-- The watcher, and with it any history of operations, keeps to the panel's containers and files.
use tunploy.Common.{ℕ, ◌≡◌, refl, Option, none, some, List, [], ◌∷◌, if◌then◌else◌, select}
use tunploy.Common.Text.{Text, codes}
use tunploy.Apperr.{Result, ok, err}
use tunploy.Wg.Model.{Instance}
use tunploy.Wg.Limits.{Block, unblocked, block_expired, block_limit, Traffic}
use tunploy.Wg.Stats.{Stats}
use tunploy.Event.{Event, for_peer}
use tunploy.Store.Tables.{Row}
use tunploy.Store.Peers.{on_instance}
use tunploy.Store.Traffic.{limit_usage}
use tunploy.Deploy.{
  Container, is_running, exec, Manager, Env, M, Blocks, Found, ◌>>=◌, ◌>>◌, pure, lift, state,
  change, read_clock, add_event, entry_of, id_text, container_name,
}
use tunploy.Deploy.Containers.{attempt, blocked_peers, container, apply}
use tunploy.Deploy.Activity.{PeerChange, observe}
use tunploy.Deploy.Watch.{
  block_event, block_events, block_of, eq_block, after_apply, same_blocks, enforce_limits,
  note_health, check_health, row_of_key, ended_detail, report_found, report_each, change_event,
  report_activity, forget_activity, show_dump, observe_dump, stats_from, peer_stats, record_stats,
  watch_instance,
}
use tunploy.Deploy.Ownership.{
  Holds, Always, Does, Does-pure, Does-change, Does->>=, Does->>, Does-call, Does-attempt, Does-if,
  Does-forgets, Adds-none,
}
use tunploy.Deploy.Ownership.Commands.{
  AnswersByName, IsNamed, idle-Does, container-Does, apply-Does,
}

module _ (env : Env) (answers : AnswersByName env) where
  read_clock-Does : Does env Always (read_clock env)
  read_clock-Does m = (Adds-none env m.log, tt)

  state-Does : Does env Always state
  state-Does m = (Adds-none env m.log, tt)

  add_event-Does : (e : Event) → Does env Always (add_event e)
  add_event-Does e m = (Adds-none env m.log, tt)

  block_event-Does :
      (s : Instance) (r : Row) (b : Block) (used : Traffic)
      → Does env Always (block_event env s r b used)
  unfolding block_event
  block_event-Does s r unblocked used =
      Does-pure env Always (for_peer (codes "device.unblocked") s r.peer) tt
  block_event-Does s r block_expired used =
      Does-pure env Always (for_peer (codes "device.expired") s r.peer) tt
  block_event-Does s r block_limit used = λ m. (Adds-none env m.log, tt)

  block_events-Does :
      (s : Instance) (prev : Blocks) (found : Found) (rs : List Row)
      → Does env Always (block_events env s prev found rs)
  block_events-Does s prev found [] = idle-Does env
  block_events-Does s prev found (r ∷ rs) =
      let next : Unit {0} → M (Unit {0}) = λ u. block_events env s prev found rs in
      let note : Event → M (Unit {0}) = λ e. add_event e >>= next in
      let event : Manager → M Event = λ m.
        block_event env s r (block_of found.blocks r.id)
          (limit_usage m.db.usage r (env.month found.now)) in
      Does-if env Always (eq_block (block_of prev r.id) (block_of found.blocks r.id))
        (block_events env s prev found rs) (state >>= λ m. event m >>= note)
        (block_events-Does s prev found rs)
        (Does->>= env Always Always state (λ m. event m >>= note) state-Does
          (λ m q.
            Does->>= env Always Always (event m) note
              (block_event-Does s r (block_of found.blocks r.id)
                (limit_usage m.db.usage r (env.month found.now)))
              (λ e p.
                Does->>= env Always Always (add_event e) next (add_event-Does e)
                  (λ u o. block_events-Does s prev found rs))))

  after_apply-Does :
      (s : Instance) (prev : Option Blocks) (found : Found)
      → Does env Always (after_apply env s prev found)
  after_apply-Does s none found = idle-Does env
  after_apply-Does s (some prev) found = block_events-Does s prev found found.rows

  enforce_limits-Does : (s : Instance) → Does env Always (enforce_limits env s)
  unfolding enforce_limits blocked_peers
  enforce_limits-Does s =
      let go : Found → Manager → M (Unit {0}) = λ found m.
        (if same_blocks (entry_of m.blocked s.id) found.blocks
          then pure tt
          else (apply env s >> after_apply env s (entry_of m.blocked s.id) found)) in
      Does->>= env Always Always (blocked_peers env s.id) (λ found. state >>= go found)
        (λ m. (Adds-none env m.log, tt))
        (λ found q. Does->>= env Always Always state (go found) state-Does (λ m p.
          Does-if env Always (same_blocks (entry_of m.blocked s.id) found.blocks) (pure tt)
            (apply env s >> after_apply env s (entry_of m.blocked s.id) found) (idle-Does env)
            (Does->> env Always (apply env s) (after_apply env s (entry_of m.blocked s.id) found)
              (apply-Does env answers s) (after_apply-Does s (entry_of m.blocked s.id) found))))

  note_health-log :
      (s : Instance) (r : Result (Option Container)) (m : Manager) → (note_health s r m).log ≡ m.log
  note_health-log s (err e) m = refl
  note_health-log s (ok ct) m = refl

  check_health-Does : (s : Instance) → Does env Always (check_health env s)
  unfolding check_health
  check_health-Does s =
      Does->>= env (Holds Always) Always (attempt (container env s.node_id s.id))
        (λ found. change (note_health s found))
        (Does-attempt env Always (container env s.node_id s.id) (
          Does-forgets env (IsNamed (container_name env s.id)) (container env s.node_id s.id)
            (container-Does env answers s.node_id s.id)))
        (λ found q. Does-change env (note_health s found) (note_health-log s found))

  ended_detail-Does : (t : Option ℕ) → Does env Always (ended_detail env t)
  ended_detail-Does none = λ m. (Adds-none env m.log, tt)
  ended_detail-Does (some t) = λ m. (Adds-none env m.log, tt)

  report_found-Does :
      (s : Instance) (c : PeerChange) (o : Option Row) → Does env Always (report_found env s c o)
  report_found-Does s c none = idle-Does env
  report_found-Does s c (some r) =
      Does->>= env Always Always (if c.online then pure [] else ended_detail env c.online_since)
        (λ detail. add_event (change_event env s c r detail))
        (Does-if env Always c.online (pure []) (ended_detail env c.online_since)
          (λ m. (Adds-none env m.log, tt)) (ended_detail-Does c.online_since))
        (λ detail q. add_event-Does (change_event env s c r detail))

  report_each-Does :
      (s : Instance) (rows : List Row) (cs : List PeerChange)
      → Does env Always (report_each env s rows cs)
  report_each-Does s rows [] = idle-Does env
  report_each-Does s rows (c ∷ cs) =
      Does->> env Always (report_found env s c (row_of_key rows c.key)) (report_each env s rows cs)
        (report_found-Does s c (row_of_key rows c.key)) (report_each-Does s rows cs)

  report_activity-Does :
      (s : Instance) (cs : List PeerChange) → Does env Always (report_activity env s cs)
  unfolding report_activity
  report_activity-Does s cs =
      Does->>= env Always Always state
        (λ m. report_each env s (select (on_instance s.id) m.db.rows) cs) state-Does
        (λ m q. report_each-Does s (select (on_instance s.id) m.db.rows) cs)

  lift-Does {ℓ} : {A : Type ℓ} (r : Result A) → Does env Always (lift r)
  lift-Does (ok a) = λ m. (Adds-none env m.log, tt)
  lift-Does (err e) = λ m. (Adds-none env m.log, tt)

  observe_dump-Does : (s : Instance) (out : Text) → Does env Always (observe_dump env s out)
  unfolding observe
  observe_dump-Does s out =
      let close : Stats → Unit {0} → M Stats = λ stats u. pure stats in
      let report : Stats → List PeerChange → M Stats =
        λ stats changes. report_activity env s changes >>= close stats in
      let look : Stats → ℕ → M Stats =
        λ stats now. observe s.id stats s.persistent_keepalive now >>= report stats in
      Does->>= env Always Always (lift (env.parse_dump out))
        (λ stats. read_clock env >>= look stats) (lift-Does (env.parse_dump out))
        (λ stats q.
          Does->>= env Always Always (read_clock env) (look stats) read_clock-Does (λ now p.
            Does->>= env Always Always (observe s.id stats s.persistent_keepalive now)
              (report stats) (λ m. (Adds-none env m.log, tt))
              (λ changes o.
                Does->>= env Always Always (report_activity env s changes) (close stats)
                  (report_activity-Does s changes) (λ u n. Does-pure env Always stats tt))))

  stats_from-Does :
      (s : Instance) (o : Option Container)
      → IsNamed (container_name env s.id) o
      → Does env Always (stats_from env s o)
  stats_from-Does s none h = λ m. (Adds-none env m.log, tt)
  stats_from-Does s (some ct) h =
      Does-if env Always (is_running ct) (show_dump env s ct >>= observe_dump env s)
        (change (forget_activity s.id) >> pure [])
        (Does->>= env Always Always (show_dump env s ct) (observe_dump env s)
          (Does-call env env.on_output s.node_id
            (exec ct.name (codes "wg" ∷ codes "show" ∷ codes "wg0" ∷ codes "dump" ∷ []))
            (id_text s.id, h))
          (λ out q. observe_dump-Does s out))
        (λ m. (Adds-none env m.log, tt))

  peer_stats-Does : (s : Instance) → Does env Always (peer_stats env s)
  unfolding peer_stats
  peer_stats-Does s =
      Does->>= env (IsNamed (container_name env s.id)) Always (container env s.node_id s.id)
        (stats_from env s) (container-Does env answers s.node_id s.id) (stats_from-Does s)

  pub watch_instance-Does : (s : Instance) → Does env Always (watch_instance env s)
  unfolding watch_instance
  watch_instance-Does s =
      let limit : Unit {0} → M (Unit {0}) = λ u. enforce_limits env s in
      let save : Stats → ℕ → M (Unit {0}) =
        λ stats now. record_stats env s.id stats now >>= limit in
      let rest : Stats → M (Unit {0}) = λ stats. read_clock env >>= save stats in
      Does->> env Always (check_health env s) (peer_stats env s >>= rest) (check_health-Does s) (
        Does->>= env Always Always (peer_stats env s) rest (peer_stats-Does s) (λ stats q.
          Does->>= env Always Always (read_clock env) (save stats) read_clock-Does (λ now p.
            Does->>= env Always Always (record_stats env s.id stats now) limit
              (λ m. (Adds-none env m.log, tt)) (λ u o. enforce_limits-Does s))))
