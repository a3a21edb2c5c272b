-- ===== src/Deploy/Ownership/Commands.antt =====
-- Every operation on one server's container keeps to the panel's containers and files.
use tunploy.Common.{
  ℕ, ◌≡◌, refl, inl, inr, Bool, true, false, Option, none, some, List, [], ◌∷◌, ◌++◌, ◌==◌,
  Bool-cases, is_empty, select, All,
}
use tunploy.Common.Path.{is_name, is_name-int_text}
use tunploy.Common.Text.{Text, codes}
use tunploy.Apperr.{Result, ok, err, Error, no_container, offline, boot_failed}
use tunploy.Wg.Model.{Instance, Peer}
use tunploy.Wg.Config.{server_config, resolver_config, speed_limits_config}
use tunploy.Store.Servers.{load_instance}
use tunploy.Deploy.{
  Container, is_running, Call, inspect_container, remove_container, start_container, stop_container,
  read_logs, create_container, exec, image_exists, build_image, write_file, remove_all, CallLog,
  Env, BootEnd, timed_out, broken, M, Found, ◌>>=◌, ◌>>◌, pure, fail, change, ask, tell, run_next,
  id_text, container_name, host_for, reached, config_file, resolver_file, speed_limits_file,
  config_dir,
}
use tunploy.Deploy.Containers.{
  maybe, attempt, unless_missing, blocked_peers, container, config_path, write_resolver,
  write_speeds, note_blocks, write_files, write_config, sync, apply, build_unless, ensure_image,
  exit_reason, too_late, ended, scan_boot, wait_ready, spec_of, started, deploy, acquire,
  deploy_by_id, none_or_up, redeploy, start_found, start, stop_found, stop, restart_found, restart,
  forget, remove, unless_offline, apply_by_id, peers_of, is_allowed,
}
use tunploy.Deploy.Ownership.{
  IsPrefixed, IsInside, IsOwn, Holds, Always, Does, Does-pure, Does-fail, Does-change, Does->>=,
  Does->>, Does-ask, Does-call, Does-attempt, Does-if, Adds-none,
}

-- A machine answers an inspection with the container of the name that was asked for.
abbrev pub AnswersByName : Env → Type 0
AnswersByName env =
    (l : CallLog) (node : ℕ) (name : Text)
    → Holds (λ (ct : Container). ct.name ≡ name)
        (env.on_inspect (l ++ (node, inspect_container name) ∷ []))

-- A machine lists a directory by the names of its entries.
abbrev pub ListsNames : Env → Type 0
ListsNames env = (l : CallLog) → Holds (λ names. All (λ n. is_name n ≡ true) names) (env.on_names l)

-- A container of this name, if any.
abbrev pub IsNamed : Text → Option Container → Type 0
IsNamed name none = Unit
IsNamed name (some ct) = ct.name ≡ name

pub idle-Does : (env : Env) → Does env Always (pure (tt {0}))
idle-Does env = Does-pure env (Always {A = Unit {0}}) tt tt

failed-Does : (env : Env) (e : Error) → Does env (Always {A = Unit {0}}) (fail e)
failed-Does env e = Does-fail env (Always {A = Unit {0}}) e

maybe-Does :
    (env : Env) (name : Text) (r : Result Container)
    → Holds (λ (ct : Container). ct.name ≡ name) r
    → Does env (IsNamed name) (maybe r)
maybe-Does env name (ok ct) h = Does-pure env (IsNamed name) (some ct) h
maybe-Does env name (err no_container) h = Does-pure env (IsNamed name) none tt
maybe-Does env name (err e) h = Does-fail env (IsNamed name) e

unless_missing-Does : (env : Env) (r : Result (Unit {0})) → Does env Always (unless_missing r)
unless_missing-Does env (ok u) = idle-Does env
unless_missing-Does env (err no_container) = idle-Does env
unless_missing-Does env (err e) = failed-Does env e

module _ (env : Env) (answers : AnswersByName env) where
  name_own : (id : ℕ) → IsPrefixed env (container_name env id)
  name_own id = (id_text id, refl)

  path_own : (id : ℕ) (file : Text) → is_name file ≡ true → IsInside (config_path env id file)
  path_own id file fine = (id_text id, file ∷ [], refl, (is_name-int_text id, (fine, tt)))

  pub tell-Does : (node : ℕ) (call : Call) → IsOwn env call → Does env Always (tell env node call)
  tell-Does node call own = Does-call env env.on_done node call own

  pub container-Does :
      (node id : ℕ) → Does env (IsNamed (container_name env id)) (container env node id)
  unfolding container
  container-Does node id =
      let name = container_name env id in
      Does->>= env (Holds (λ (ct : Container). ct.name ≡ name)) (IsNamed name)
        (attempt (ask env env.on_inspect node (inspect_container name))) maybe
        (Does-attempt env (λ (ct : Container). ct.name ≡ name)
          (ask env env.on_inspect node (inspect_container name))
          (Does-ask env (λ (ct : Container). ct.name ≡ name) env.on_inspect node
            (inspect_container name) (name_own id) (λ l. answers l node name)))
        (maybe-Does env name)

  write_resolver-Does : (s : Instance) → Does env Always (write_resolver env s)
  write_resolver-Does s =
      Does-if env Always s.dns_on_server
        (tell env s.node_id (write_file (config_path env s.id resolver_file) (resolver_config s)))
        (tell env s.node_id (remove_all (config_path env s.id resolver_file)))
        (tell-Does s.node_id (write_file (config_path env s.id resolver_file) (resolver_config s))
          (path_own s.id resolver_file refl))
        (tell-Does s.node_id (remove_all (config_path env s.id resolver_file))
          (path_own s.id resolver_file refl))

  write_speeds-Does : (s : Instance) (limits : Text) → Does env Always (write_speeds env s limits)
  write_speeds-Does s limits =
      Does-if env Always (is_empty limits)
        (tell env s.node_id (remove_all (config_path env s.id speed_limits_file)))
        (tell env s.node_id (write_file (config_path env s.id speed_limits_file) limits))
        (tell-Does s.node_id (remove_all (config_path env s.id speed_limits_file))
          (path_own s.id speed_limits_file refl))
        (tell-Does s.node_id (write_file (config_path env s.id speed_limits_file) limits)
          (path_own s.id speed_limits_file refl))

  write_files-Does : (s : Instance) (ps : List Peer) → Does env Always (write_files env s ps)
  write_files-Does s ps =
      Does->> env Always
        (tell env s.node_id (write_file (config_path env s.id config_file) (server_config s ps))) _
        (tell-Does s.node_id (write_file (config_path env s.id config_file) (server_config s ps))
          (path_own s.id config_file refl))
        (Does->> env Always (write_resolver env s) (write_speeds env s (speed_limits_config ps))
          (write_resolver-Does s) (write_speeds-Does s (speed_limits_config ps)))

  write_config-Does : (s : Instance) → Does env Always (write_config env s)
  unfolding write_config blocked_peers
  write_config-Does s =
      let note : Found → M (Unit {0}) = λ found. note_blocks env s.id found.blocks in
      let write : Found → M (Unit {0}) =
        λ found. write_files env s (peers_of (select (is_allowed found.blocks) found.rows)) in
      Does->>= env Always Always (blocked_peers env s.id) (λ found. write found >> note found)
        (λ m. (Adds-none env m.log, tt))
        (λ found q.
          Does->> env Always (write found) (note found)
            (write_files-Does s (peers_of (select (is_allowed found.blocks) found.rows)))
            (λ m. (Adds-none env m.log, tt)))

  sync-Does :
      (s : Instance) (o : Option Container)
      → IsNamed (container_name env s.id) o
      → Does env Always (sync env s o)
  sync-Does s none h = idle-Does env
  sync-Does s (some ct) h =
      Does-if env Always (is_running ct) _ (pure tt)
        (Does->>= env Always Always
          (ask env env.on_output s.node_id (exec ct.name (codes "tunploy-wg" ∷ codes "sync" ∷ [])))
          _ (Does-call env env.on_output s.node_id _ (id_text s.id, h)) (λ out q. idle-Does env))
        (idle-Does env)

  pub apply-Does : (s : Instance) → Does env Always (apply env s)
  unfolding apply
  apply-Does s = Does->> env Always (write_config env s) _ (write_config-Does s) (
      Does->>= env (IsNamed (container_name env s.id)) Always (container env s.node_id s.id)
        (sync env s) (container-Does s.node_id s.id) (sync-Does s))

  build_unless-Does : (node : ℕ) (found : Bool) → Does env Always (build_unless env node found)
  build_unless-Does node true = idle-Does env
  build_unless-Does node false = tell-Does node (build_image env.image) refl

  ended-Does :
      (node id : ℕ) (how : BootEnd) (tail : Option (List Text))
      → Does env Always (ended env node (container_name env id) how tail)
  ended-Does node id how none = idle-Does env
  ended-Does node id timed_out (some tail) = failed-Does env (boot_failed (too_late env) tail)
  ended-Does node id (broken e) (some tail) = failed-Does env e
  ended-Does node id BootEnd.stopped (some tail) =
      let look : M Container =
        ask env env.on_inspect node (inspect_container (container_name env id)) in
      let report : Result Container → M (Unit {0}) =
        λ ct. fail (boot_failed (exit_reason env ct) tail) in
      Does->>= env (Holds Always) Always (attempt look) report
        (Does-attempt env Always look (
          Does-call env env.on_inspect node (inspect_container (container_name env id))
            (name_own id)))
        (λ r q. failed-Does env (boot_failed (exit_reason env r) tail))

  wait_ready-Does : (node id : ℕ) → Does env Always (wait_ready env node (container_name env id))
  unfolding wait_ready
  wait_ready-Does node id =
      let call : Call = read_logs (container_name env id) in
      Does->>= env Always Always (ask env env.on_boot node call) _
        (Does-call env env.on_boot node call (name_own id))
        (λ boot q. ended-Does node id boot.1 (scan_boot env.is_time [] boot.0))

  started-Does : (s : Instance) (start : Bool) → Does env Always (started env s start)
  started-Does s false = idle-Does env
  started-Does s true =
      Does->> env Always (tell env s.node_id (start_container (container_name env s.id))) _
        (tell-Does s.node_id (start_container (container_name env s.id)) (name_own s.id))
        (wait_ready-Does s.node_id s.id)

  -- A removal of a container of the panel that may be gone.
  pub removal-Does :
      (node : ℕ) (name : Text)
      → IsPrefixed env name
      → Does env Always (attempt (tell env node (remove_container name)) >>= unless_missing)
  removal-Does node name own =
      let gone : M (Unit {0}) = tell env node (remove_container name) in
      Does->>= env (Holds Always) Always (attempt gone) unless_missing
        (Does-attempt env Always gone (tell-Does node (remove_container name) own))
        (λ r q. unless_missing-Does env r)

  pub deploy-Does : (s : Instance) (start : Bool) → Does env Always (deploy env s start)
  unfolding deploy ensure_image
  deploy-Does s start = Does->> env Always (write_config env s) _ (write_config-Does s) (
      Does->> env Always (ensure_image env s.node_id) _
        (Does->>= env Always Always (ask env env.on_exists s.node_id (image_exists env.image)) _
          (Does-call env env.on_exists s.node_id (image_exists env.image) refl)
          (λ found q. build_unless-Does s.node_id found))
        (Does->>= env Always Always _ _
          (removal-Does s.node_id (container_name env s.id) (name_own s.id))
          (λ u q.
            Does->> env Always (tell env s.node_id (create_container (spec_of env s))) _
              (tell-Does s.node_id (create_container (spec_of env s)) (name_own s.id))
              (started-Does s start))))

  reached-Does : (o : Option Error) → Does env Always (reached env o)
  reached-Does none m = (Adds-none env m.log, tt)
  reached-Does (some e) m = (Adds-none env m.log, tt)

  pub host_for-Does : (node : ℕ) → Does env Always (host_for env node)
  unfolding host_for
  host_for-Does node m = elim (Bool-cases (node == 0)) [
    | inl local ↦ rw local (Adds-none env m.log, tt)
    | inr remote ↦ rw remote (reached-Does (env.reach m node) m)
  ]

  load-Does :
      (r : Result Instance)
      → Does env Always (λ m. run_next (r, m) λ s. (host_for env s.node_id >> pure s))
  load-Does (err e) = λ m. (Adds-none env m.log, tt)
  load-Does (ok s) =
      Does->> env Always (host_for env s.node_id) (pure s) (host_for-Does s.node_id)
        (Does-pure env Always s tt)

  acquire-Does : (id : ℕ) → Does env Always (acquire env id)
  unfolding acquire
  acquire-Does id m = load-Does (load_instance m.db id) m

  -- What an operation does with a server and its container.
  on_container-Does :
      (id : ℕ) (next : Instance → Option Container → M (Unit {0}))
      → ((s : Instance) (o : Option Container)
          → IsNamed (container_name env s.id) o
          → Does env Always (next s o))
      → Does env Always (acquire env id >>= λ s. container env s.node_id s.id >>= next s)
  on_container-Does id next f =
      Does->>= env Always Always (acquire env id) _ (acquire-Does id) (λ s q.
        Does->>= env (IsNamed (container_name env s.id)) Always (container env s.node_id s.id)
          (next s) (container-Does s.node_id s.id) (f s))

  start_found-Does :
      (s : Instance) (o : Option Container)
      → IsNamed (container_name env s.id) o
      → Does env Always (start_found env s o)
  start_found-Does s none h = deploy-Does s true
  start_found-Does s (some ct) h = Does->> env Always (write_config env s) _ (write_config-Does s) (
      Does-if env Always (is_running ct) (pure tt) (tell env s.node_id (start_container ct.name))
        (idle-Does env) (tell-Does s.node_id (start_container ct.name) (id_text s.id, h)))

  stop_found-Does :
      (s : Instance) (o : Option Container)
      → IsNamed (container_name env s.id) o
      → Does env Always (stop_found env s o)
  stop_found-Does s none h = idle-Does env
  stop_found-Does s (some ct) h = tell-Does s.node_id (stop_container ct.name) (id_text s.id, h)

  restart_found-Does :
      (s : Instance) (o : Option Container)
      → IsNamed (container_name env s.id) o
      → Does env Always (restart_found env s o)
  restart_found-Does s none h = deploy-Does s true
  restart_found-Does s (some ct) h =
      Does->> env Always (write_config env s) _ (write_config-Does s) (
        Does->> env Always (tell env s.node_id (stop_container ct.name)) _
          (tell-Does s.node_id (stop_container ct.name) (id_text s.id, h))
          (tell-Does s.node_id (start_container ct.name) (id_text s.id, h)))

  unless_offline-Does : (r : Result Instance) → Does env Always (unless_offline env r)
  unless_offline-Does (ok s) = apply-Does s
  unless_offline-Does (err offline) = idle-Does env
  unless_offline-Does (err e) = failed-Does env e

  pub deploy_by_id-Does : (id : ℕ) (start : Bool) → Does env Always (deploy_by_id env id start)
  unfolding deploy_by_id
  deploy_by_id-Does id start =
      Does->>= env Always Always (acquire env id) _ (acquire-Does id) (λ s q. deploy-Does s start)

  pub redeploy-Does : (id : ℕ) → Does env Always (redeploy env id)
  unfolding redeploy
  redeploy-Does id =
      on_container-Does id (λ s ct. deploy env s (none_or_up env ct))
        (λ s o h. deploy-Does s (none_or_up env o))

  pub start-Does : (id : ℕ) → Does env Always (start env id)
  unfolding start
  start-Does id = on_container-Does id (start_found env) start_found-Does

  pub stop-Does : (id : ℕ) → Does env Always (stop env id)
  unfolding stop
  stop-Does id = on_container-Does id (stop_found env) stop_found-Does

  pub restart-Does : (id : ℕ) → Does env Always (restart env id)
  unfolding restart
  restart-Does id = on_container-Does id (restart_found env) restart_found-Does

  pub remove-Does : (id : ℕ) → Does env Always (remove env id)
  unfolding remove
  remove-Does id = Does->>= env Always Always (acquire env id) _ (acquire-Does id) (λ s q.
      Does->>= env Always Always _ _ (removal-Does s.node_id (container_name env id) (name_own id))
        (λ u p.
          Does->> env Always (tell env s.node_id (remove_all (config_dir id))) (change (forget id))
            (tell-Does s.node_id (remove_all (config_dir id))
              (id_text id, [], refl, (is_name-int_text id, tt)))
            (Does-change env (forget id) (λ m. refl))))

  pub apply_by_id-Does : (id : ℕ) → Does env Always (apply_by_id env id)
  unfolding apply_by_id
  apply_by_id-Does id =
      Does->>= env (Holds Always) Always (attempt (acquire env id)) (unless_offline env)
        (Does-attempt env Always (acquire env id) (acquire-Does id)) (λ r q. unless_offline-Does r)
