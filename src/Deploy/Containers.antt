-- ===== src/Deploy/Containers.antt =====
-- internal/deploy/deploy.go and progress.go: what the manager does to one server's container.
use tunploy.Common.{
  ℕ, suc, ◌+◌, ◌-◌, ◌%◌, ◌^◌, Bool, true, false, not, Option, none, some, List, [], ◌∷◌, ◌++◌, map,
  ltb, if◌then◌else◌, is_some, length, is_empty, select, eq_text,
}
use tunploy.Common.Int.{ℤ, pos, pos_part, neg_part, eqz}
use tunploy.Common.Show.{int_text}
use tunploy.Common.Text.{Text, codes, cut_at, cut_prefix}
use tunploy.Apperr.{
  Result, ok, err, no_container, offline, boot_failed, Message, plain, format, text,
}
use tunploy.Wg.Model.{Instance, Peer}
use tunploy.Wg.Config.{server_config, resolver_config, speed_limits_config}
use tunploy.Store.Tables.{Db, Row}
use tunploy.Store.Peers.{on_instance}
use tunploy.Store.Servers.{load_instance}
use tunploy.Deploy.{
  Container, is_running, Spec, inspect_container, remove_container, start_container, stop_container,
  read_logs, create_container, exec, image_exists, build_image, write_file, remove_all, Manager,
  Env, BootEnd, timed_out, broken, M, ◌>>=◌, ◌>>◌, pure, fail, run_next, change, put_entry,
  drop_entry, id_text, ask, tell, container_name, host_for, config_dir, Blocks, Found, blocks_of,
  entry_of, config_file, resolver_file, speed_limits_file,
}

-- The devices that may connect: those that the map of blocks does not hold.
abbrev pub is_allowed : Blocks → Row → Bool
is_allowed bs r = not (is_some (entry_of bs r.id))

abbrev pub peers_of : List Row → List Peer
peers_of rows = map (λ (r : Row). r.peer) rows

abbrev pub maybe : Result Container → M (Option Container)
maybe (ok ct) = pure (some ct)
maybe (err no_container) = pure none
maybe (err e) = fail e

abbrev is_up : Option Container → Bool
is_up none = false
is_up (some ct) = is_running ct

-- A removal of what may not be there.
abbrev pub unless_missing : Result (Unit {0}) → M (Unit {0})
unless_missing (err no_container) = pure tt
unless_missing (err e) = fail e
unless_missing (ok u) = pure tt

abbrev pub attempt {ℓ} : {A : Type ℓ} → M A → M (Result A)
attempt first m = let (r, m') = first m in (ok r, m')

-- stripTimestamp
abbrev after_time : (Text → Bool) → Text → Option (Text × Text) → Text
after_time is_time line none = line
after_time is_time line (some (time, rest)) = if is_time time then rest else line

abbrev strip_timestamp : (Text → Bool) → Text → Text
strip_timestamp is_time line = after_time is_time line (cut_at b' ' line)

abbrev boot_log_lines : ℕ
boot_log_lines = 50

abbrev drop_first : List Text → List Text
drop_first [] = []
drop_first (l ∷ ls) = ls

abbrev drop_over : List Text → List Text
drop_over ls = if ltb boot_log_lines (length ls) then drop_first ls else ls

abbrev keep_tail : List Text → Text → List Text
keep_tail tail line = drop_over (tail ++ line ∷ [])

-- The loop of waitReady: `none` once the container is ready, else the last lines that report no step.
pub scan_boot : (Text → Bool) → List Text → List Text → Option (List Text)
scan_boot is_time tail [] = some tail
scan_boot is_time tail (l ∷ ls) =
    let line = strip_timestamp is_time l in
    let rest =
      scan_boot is_time
        (if is_some (cut_prefix (codes "tunploy:step ") line) then tail else keep_tail tail line)
        ls in
    if eq_text line (codes "tunploy:ready") then none else rest

-- forget
abbrev pub forget : ℕ → Manager → Manager
forget id m = record m {
  activity = drop_entry id m.activity;
  blocked = drop_entry id m.blocked;
  down = drop_entry id m.down;
}

module _ (env : Env) where
  -- blockedPeers
  abbrev pub found_at : Db → ℕ → ℕ → Found
  found_at db id now =
      let rows = select (on_instance id) db.rows in
      record { rows = rows; now = now; blocks = blocks_of db rows now (env.month now) }

  unfoldable pub blocked_peers : ℕ → M Found
  blocked_peers id m = (ok (found_at m.db id (env.clock m.ticks)), record m { ticks = suc m.ticks })

  -- container
  unfoldable pub container : ℕ → ℕ → M (Option Container)
  container node id =
      attempt (ask env env.on_inspect node (inspect_container (container_name env id))) >>= maybe

  abbrev pub config_path : ℕ → Text → List Text
  config_path id file = config_dir id ++ file ∷ []

  abbrev pub write_resolver : Instance → M (Unit {0})
  write_resolver s =
      if s.dns_on_server
      then tell env s.node_id (write_file (config_path s.id resolver_file) (resolver_config s))
      else tell env s.node_id (remove_all (config_path s.id resolver_file))

  abbrev pub write_speeds : Instance → Text → M (Unit {0})
  write_speeds s limits =
      if is_empty limits
      then tell env s.node_id (remove_all (config_path s.id speed_limits_file))
      else tell env s.node_id (write_file (config_path s.id speed_limits_file) limits)

  abbrev pub note_blocks : ℕ → Blocks → M (Unit {0})
  note_blocks id bs = change (λ m. record m { blocked = put_entry id bs m.blocked })

  abbrev pub write_files : Instance → List Peer → M (Unit {0})
  write_files s allowed =
      tell env s.node_id (write_file (config_path s.id config_file) (server_config s allowed))
      >> (write_resolver s >> write_speeds s (speed_limits_config allowed))

  -- writeConfig
  unfoldable pub write_config : Instance → M (Unit {0})
  write_config s = blocked_peers s.id >>= λ found.
      write_files s (peers_of (select (is_allowed found.blocks) found.rows))
      >> note_blocks s.id found.blocks

  abbrev pub sync : Instance → Option Container → M (Unit {0})
  sync s none = pure tt
  sync s (some ct) =
      if is_running ct
      then (ask env env.on_output s.node_id (exec ct.name (codes "tunploy-wg" ∷ codes "sync" ∷ []))
          >>= λ out. pure tt)
      else pure tt

  -- apply
  unfoldable pub apply : Instance → M (Unit {0})
  apply s = write_config s >> (container s.node_id s.id >>= sync s)

  abbrev pub build_unless : ℕ → Bool → M (Unit {0})
  build_unless node true = pure tt
  build_unless node false = tell env node (build_image env.image)

  -- ensureImage
  unfoldable pub ensure_image : ℕ → M (Unit {0})
  ensure_image node = ask env env.on_exists node (image_exists env.image) >>= build_unless node

  abbrev pub exit_reason : Result Container → Message
  exit_reason (err e) = plain "container stopped before wireguard came up"
  exit_reason (ok ct) =
      if eqz ct.exit_code (pos 0)
      then plain "container stopped before wireguard came up"
      else format "container exited with code %d before wireguard came up"
          (text (int_text ct.exit_code) ∷ [])

  abbrev pub too_late : Message
  too_late = plain "wireguard did not come up within 30s"

  abbrev pub ended : ℕ → Text → BootEnd → Option (List Text) → M (Unit {0})
  ended node name how none = pure tt
  ended node name timed_out (some tail) = fail (boot_failed too_late tail)
  ended node name (broken e) (some tail) = fail e
  ended node name BootEnd.stopped (some tail) =
      attempt (ask env env.on_inspect node (inspect_container name)) >>= λ ct.
      fail (boot_failed (exit_reason ct) tail)

  -- waitReady, on the lines that the log stream had and how it ended.
  unfoldable pub wait_ready : ℕ → Text → M (Unit {0})
  wait_ready node name = ask env env.on_boot node (read_logs name) >>= λ boot.
      ended node name boot.1 (scan_boot env.is_time [] boot.0)

  abbrev port_of : ℤ → ℕ
  port_of z = (pos_part z + (2 ^ 16 - neg_part z % 2 ^ 16)) % 2 ^ 16

  abbrev pub spec_of : Instance → Spec
  spec_of s = record {
    name = container_name env s.id;
    image = env.image;
    label = id_text s.id;
    port = port_of s.listen_port;
    source = config_dir s.id;
  }

  abbrev pub started : Instance → Bool → M (Unit {0})
  started s false = pure tt
  started s true =
      tell env s.node_id (start_container (container_name env s.id))
      >> wait_ready s.node_id (container_name env s.id)

  -- deploy, without the reports of its progress.
  unfoldable pub deploy : Instance → Bool → M (Unit {0})
  deploy s start =
      write_config s
      >> (ensure_image s.node_id
          >> (attempt (tell env s.node_id (remove_container (container_name env s.id)))
              >>= unless_missing
              >>= λ u. (tell env s.node_id (create_container (spec_of s)) >> started s start)))

  -- acquire, without its lock: the operations of a node run one at a time.
  unfoldable pub acquire : ℕ → M Instance
  acquire id m = run_next (load_instance m.db id, m) λ s. (host_for env s.node_id >> pure s)

  -- Deploy and Provision
  unfoldable pub deploy_by_id : ℕ → Bool → M (Unit {0})
  deploy_by_id id start = acquire id >>= λ s. deploy s start

  abbrev pub none_or_up : Option Container → Bool
  none_or_up none = true
  none_or_up (some ct) = is_running ct

  -- Redeploy
  unfoldable pub redeploy : ℕ → M (Unit {0})
  redeploy id = acquire id >>= λ s. container s.node_id s.id >>= λ ct. deploy s (none_or_up ct)

  abbrev pub start_found : Instance → Option Container → M (Unit {0})
  start_found s none = deploy s true
  start_found s (some ct) =
      write_config s
      >> (if is_running ct then pure tt else tell env s.node_id (start_container ct.name))

  -- Start
  unfoldable pub start : ℕ → M (Unit {0})
  start id = acquire id >>= λ s. container s.node_id s.id >>= start_found s

  abbrev pub stop_found : Instance → Option Container → M (Unit {0})
  stop_found s none = pure tt
  stop_found s (some ct) = tell env s.node_id (stop_container ct.name)

  -- Stop
  unfoldable pub stop : ℕ → M (Unit {0})
  stop id = acquire id >>= λ s. container s.node_id s.id >>= stop_found s

  abbrev pub restart_found : Instance → Option Container → M (Unit {0})
  restart_found s none = deploy s true
  restart_found s (some ct) =
      write_config s
      >> (tell env s.node_id (stop_container ct.name)
          >> tell env s.node_id (start_container ct.name))

  -- Restart
  unfoldable pub restart : ℕ → M (Unit {0})
  restart id = acquire id >>= λ s. container s.node_id s.id >>= restart_found s

  -- Remove
  unfoldable pub remove : ℕ → M (Unit {0})
  remove id = acquire id >>= λ s.
      attempt (tell env s.node_id (remove_container (container_name env id)))
      >>= unless_missing
      >>= λ u. (tell env s.node_id (remove_all (config_dir id)) >> change (forget id))

  abbrev pub unless_offline : Result Instance → M (Unit {0})
  unless_offline (err offline) = pure tt
  unless_offline (err e) = fail e
  unless_offline (ok s) = apply s

  -- Apply
  unfoldable pub apply_by_id : ℕ → M (Unit {0})
  apply_by_id id = attempt (acquire id) >>= unless_offline
