-- ===== src/Deploy/Missed.antt =====
-- What enforceLimits of internal/deploy/limits.go does after WireGuard could not read the new file.
use tunploy.Common.{
  ℕ, suc, ◌≡◌, refl, ap, subst, Bool, true, false, some, List, [], ◌∷◌, ◌++◌, if◌then◌else◌, select,
}
use tunploy.Common.Text.{Text, codes}
use tunploy.Apperr.{ok, err, Error}
use tunploy.Wg.Config.{server_config, resolver_config, speed_limits_config}
use tunploy.Wg.Model.{Instance, Peer}
use tunploy.Deploy.{
  Container, is_running, Call, inspect_container, exec, container_name, write_file, remove_all,
  tell, config_file, resolver_file, speed_limits_file, Manager, Env, M, CallLog, Blocks, ◌>>◌,
  put_entry, entry_of,
}
use tunploy.Deploy.Containers.{
  blocked_peers, found_at, write_config, write_resolver, write_speeds, config_path, write_files,
  sync, apply, peers_of, is_allowed, container,
}
use tunploy.Deploy.Watch.{enforce_limits, equal_blocks, same_blocks}
use tunploy.Store.Peers.{on_instance}
use tunploy.Store.Peers.Invariant.{AllApart}
use tunploy.Deploy.Blocks.{entry_of-put, AllApart-select, equal_blocks_refl}

-- What runs without a failure, and adds to the log only.
abbrev OnlyLogs : M (Unit {0}) → Type 0
OnlyLogs act = (m : Manager) → (l : CallLog) × (act m ≡ (ok tt, record m { log = l }))

OnlyLogs->> : (act last : M (Unit {0})) → OnlyLogs act → OnlyLogs last → OnlyLogs (act >> last)
OnlyLogs->> act last f g m =
    let (l, e) = f m in let (k, d) = g (record m { log = l }) in (k, rw (e, d) refl)

if-OnlyLogs :
    (b : Bool) (act other : M (Unit {0}))
    → OnlyLogs act
    → OnlyLogs other
    → OnlyLogs (if b then act else other)
if-OnlyLogs true act other f g = f
if-OnlyLogs false act other f g = g

module _ (env : Env) (done : (l : CallLog) → env.on_done l ≡ ok tt) where
  tell-OnlyLogs : (node : ℕ) (call : Call) → OnlyLogs (tell env node call)
  tell-OnlyLogs node call m =
      (m.log ++ (node, call) ∷ [], rw (done (m.log ++ (node, call) ∷ [])) refl)

  write_resolver-OnlyLogs : (s : Instance) → OnlyLogs (write_resolver env s)
  write_resolver-OnlyLogs s =
      if-OnlyLogs s.dns_on_server
        (tell env s.node_id (write_file (config_path env s.id resolver_file) (resolver_config s)))
        (tell env s.node_id (remove_all (config_path env s.id resolver_file)))
        (tell-OnlyLogs s.node_id
          (write_file (config_path env s.id resolver_file) (resolver_config s)))
        (tell-OnlyLogs s.node_id (remove_all (config_path env s.id resolver_file)))

  write_speeds-OnlyLogs : (s : Instance) (limits : Text) → OnlyLogs (write_speeds env s limits)
  write_speeds-OnlyLogs s [] =
      tell-OnlyLogs s.node_id (remove_all (config_path env s.id speed_limits_file))
  write_speeds-OnlyLogs s (c ∷ t) =
      tell-OnlyLogs s.node_id (write_file (config_path env s.id speed_limits_file) (c ∷ t))

  write_files-OnlyLogs : (s : Instance) (ps : List Peer) → OnlyLogs (write_files env s ps)
  write_files-OnlyLogs s ps =
      OnlyLogs->>
        (tell env s.node_id (write_file (config_path env s.id config_file) (server_config s ps)))
        (write_resolver env s >> write_speeds env s (speed_limits_config ps))
        (tell-OnlyLogs s.node_id
          (write_file (config_path env s.id config_file) (server_config s ps)))
        (OnlyLogs->> (write_resolver env s) (write_speeds env s (speed_limits_config ps))
          (write_resolver-OnlyLogs s) (write_speeds-OnlyLogs s (speed_limits_config ps)))

  -- The configuration is written, and the blocks are noted.
  write_config-notes :
      (s : Instance) (m : Manager) (next : Blocks)
      → (found_at env m.db s.id (env.clock m.ticks)).blocks ≡ next
      → (l : CallLog) × (write_config env s m ≡ (
        ok tt,
        record m { ticks = suc m.ticks; log = l; blocked = put_entry s.id next m.blocked },
      ))
  unfolding write_config blocked_peers
  write_config-notes s m next h =
      let found = found_at env m.db s.id (env.clock m.ticks) in
      let (l, e) =
        write_files-OnlyLogs s (peers_of (select (is_allowed found.blocks) found.rows))
          (record m { ticks = suc m.ticks }) in
      (
        l,
        rw e (
            ap
              (λ (bs : Blocks). (
                ok tt,
                record m { ticks = suc m.ticks; log = l; blocked = put_entry s.id bs m.blocked },
              ))
              h),
      )

container-found :
    (env : Env) (node id : ℕ) (ct : Container)
    → ((l : CallLog) → env.on_inspect l ≡ ok ct)
    → (m : Manager)
    → (l : CallLog) × (container env node id m ≡ (ok (some ct), record m { log = l }))
unfolding container
container-found env node id ct inspected m =
    let l : CallLog = m.log ++ (node, inspect_container (container_name env id)) ∷ [] in
    (l, rw (inspected l) refl)

sync-fails :
    (env : Env) (s : Instance) (ct : Container) (e : Error)
    → is_running ct ≡ true
    → ((l : CallLog) → env.on_output l ≡ err e)
    → (m : Manager) → (l : CallLog) × (sync env s (some ct) m ≡ (err e, record m { log = l }))
sync-fails env s ct e up refused m =
    let l : CallLog =
      m.log ++ (s.node_id, exec ct.name (codes "tunploy-wg" ∷ codes "sync" ∷ [])) ∷ [] in
    (l, rw (up, refused l) refl)

-- A read of the file that WireGuard refuses.
apply-fails :
    (env : Env) (s : Instance) (m : Manager) (next : Blocks) (ct : Container) (e : Error)
    → ((l : CallLog) → env.on_done l ≡ ok tt)
    → ((l : CallLog) → env.on_inspect l ≡ ok ct)
    → is_running ct ≡ true
    → ((l : CallLog) → env.on_output l ≡ err e)
    → (found_at env m.db s.id (env.clock m.ticks)).blocks ≡ next
    → (l : CallLog) × (apply env s m ≡ (
      err e,
      record m { ticks = suc m.ticks; log = l; blocked = put_entry s.id next m.blocked },
    ))
unfolding apply
apply-fails env s m next ct e done inspected up refused h =
    let (l, w) = write_config-notes env done s m next h in
    let m1 : Manager = record m {
      ticks = suc m.ticks;
      log = l;
      blocked = put_entry s.id next m.blocked;
    } in
    let (k, c) = container-found env s.node_id s.id ct inspected m1 in
    let (j, d) = sync-fails env s ct e up refused (record m1 { log = k }) in (j, rw (w, c, d) refl)

-- No change of the blocks since they were noted.
enforce_limits-quiet :
    (env : Env) (s : Instance) (m : Manager) (next : Blocks)
    → same_blocks (entry_of m.blocked s.id) next ≡ true
    → (found_at env m.db s.id (env.clock m.ticks)).blocks ≡ next
    → enforce_limits env s m ≡ (ok tt, record m { ticks = suc m.ticks })
unfolding enforce_limits blocked_peers
enforce_limits-quiet env s m next same h = rw (h, same) refl

enforce_limits-refused :
    (env : Env) (s : Instance) (m m1 : Manager) (next : Blocks) (e : Error)
    → same_blocks (entry_of m.blocked s.id) next ≡ false
    → (found_at env m.db s.id (env.clock m.ticks)).blocks ≡ next
    → apply env s (record m { ticks = suc m.ticks }) ≡ (err e, m1)
    → enforce_limits env s m ≡ (err e, m1)
unfolding enforce_limits blocked_peers
enforce_limits-refused env s m m1 next e differs h a = rw (h, differs, a) refl

-- In a store whose devices do not share IDs, let the blocks of a server's devices differ from the
-- noted ones and stay as they are from now on. If the files can be written but the running container
-- fails to read them again, enforceLimits fails and records no event; and when it runs again it
-- does nothing at all but read the clock, whatever the machine would answer by then.
pub enforce_limits-missed :
    (env again : Env) (s : Instance) (m : Manager) (next : Blocks) (ct : Container) (e : Error)
    → AllApart m.db.rows
    → ((l : CallLog) → env.on_done l ≡ ok tt)
    → ((l : CallLog) → env.on_inspect l ≡ ok ct)
    → is_running ct ≡ true
    → ((l : CallLog) → env.on_output l ≡ err e)
    → same_blocks (entry_of m.blocked s.id) next ≡ false
    → ((t : ℕ) → (found_at env m.db s.id t).blocks ≡ next)
    → ((t : ℕ) → (found_at again m.db s.id t).blocks ≡ next)
    → (m' : Manager) × (enforce_limits env s m ≡ (err e, m'))
      × (m'.events ≡ m.events)
      × (enforce_limits again s m' ≡ (ok tt, record m' { ticks = suc m'.ticks }))
enforce_limits-missed env again s m next ct e apart done inspected up refused differs now later =
    let (l, a) =
      apply-fails env s (record m { ticks = suc m.ticks }) next ct e done inspected up refused
        (now (env.clock (suc m.ticks))) in
    let m' : Manager = record m {
      ticks = suc (suc m.ticks);
      log = l;
      blocked = put_entry s.id next m.blocked;
    } in
    (
      m',
      enforce_limits-refused env s m m' next e differs (now (env.clock m.ticks)) a,
      refl,
      enforce_limits-quiet again s m' next
          (rw (entry_of-put m.blocked s.id next) (
            subst (λ bs. equal_blocks bs bs ≡ true) (now 0)
              (equal_blocks_refl m.db (select (on_instance s.id) m.db.rows) 0 (env.month 0)
                (AllApart-select (on_instance s.id) m.db.rows apart))))
          (later (again.clock m'.ticks)),
    )
