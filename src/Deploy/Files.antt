-- ===== src/Deploy/Files.antt =====
-- The configuration that writeConfig of internal/deploy/deploy.go writes, and what it lets in.
use tunploy.Common.{
  ℕ, suc, ◌≡◌, refl, sym, ap, ◌∙◌, ◌≢◌, Bool, true, false, not, none, List, [], ◌∷◌, ◌++◌,
  append_assoc, append-nil, arith, if◌then◌else◌, ==_refl, is_empty, select, All,
}
use tunploy.Common.Text.{Text}
use tunploy.Apperr.{Result, ok, err}
use tunploy.Wg.Model.{Instance, Peer}
use tunploy.Wg.Limits.{
  Block, is_blocked, blocked, Status, active, disabled, status_of_block, status, unblocked,
  block_expired, block_limit,
}
use tunploy.Wg.Config.{resolver_config, server_config, speed_limits_config}
use tunploy.Wg.Config.Laws.{
  effective, effective-server_config, server_settings, settings_with, peer_settings, peer_setting,
}
use tunploy.Store.Tables.{Db, Row}
use tunploy.Store.Peers.{on_instance}
use tunploy.Store.Peers.Invariant.{Apart, AllApart}
use tunploy.Store.Traffic.{limit_usage}
use tunploy.Deploy.{
  M, ◌>>◌, run_next, tell, remove_all, resolver_file, speed_limits_file, Blocks, blocks_of,
  put_block, entry_of, Call, write_file, CallLog, Manager, Env, config_file, Found,
}
use tunploy.Deploy.Containers.{
  write_resolver, write_speeds, note_blocks, is_allowed, peers_of, write_config, write_files,
  config_path, blocked_peers, found_at,
}
use tunploy.Deploy.Blocks.{AllApart-select, Lacks, blocks_of-Lacks}

-- The device may connect by its status.
abbrev is_active : Status → Bool
is_active active = true
is_active _ = false

abbrev pub active_rows : Db → List Row → ℕ → ℕ → List Row
active_rows db rs now month =
    select (λ (r : Row). is_active (status r.peer (limit_usage db.usage r month) now)) rs

entry_of-Lacks : (id : ℕ) (bs : Blocks) → Lacks id bs → entry_of bs id ≡ none
entry_of-Lacks id [] h = refl
entry_of-Lacks id ((i, b) ∷ bs) h = ground (arith, h.0, entry_of-Lacks id bs h.1)

-- A block of another device changes nothing.
allowed-other :
    (r : Row) (b : Block) (bs : Blocks) (rs : List Row)
    → All (Apart r) rs
    → select (is_allowed ((r.id, b) ∷ bs)) rs ≡ select (is_allowed bs) rs
allowed-other r b bs [] h = refl
allowed-other r b bs (x ∷ rs) h =
    let rest = allowed-other r b bs rs h.1 in
    let other : r.id ≢ x.id = h.0.ids in ground (arith, other)

-- One device in front of the others.
allowed-head :
    (r : Row) (b : Block) (bs : Blocks) (rs : List Row)
    → All (Apart r) rs
    → Lacks r.id bs
    → select (is_allowed (put_block r.id b bs)) (r ∷ rs)
      ≡ (if is_blocked b then select (is_allowed bs) rs else r ∷ select (is_allowed bs) rs)
allowed-head r unblocked bs rs h k = let free = entry_of-Lacks r.id bs k in rw free refl
allowed-head r block_expired bs rs h k =
    let rest = allowed-other r block_expired bs rs h in ground (arith, ==_refl r.id)
allowed-head r block_limit bs rs h k =
    let rest = allowed-other r block_limit bs rs h in ground (arith, ==_refl r.id)

-- A device that is off has no settings.
off-silent : (p : Peer) → p.enabled ≡ false → peer_setting p ≡ []
off-silent p h = ground arith

-- A status with a block, and with none, at either position of the switch.
abbrev status_with : Bool → Block → Status
status_with on b = if not on then disabled else status_of_block b

keeps :
    (on : Bool) (r : Row) (ys : List Row)
    → (on ≡ false → peer_setting r.peer ≡ [])
    → peer_setting r.peer ++ peer_settings (peers_of ys)
      ≡ peer_settings (peers_of (if is_active (status_with on unblocked) then r ∷ ys else ys))
keeps true r ys f = refl
keeps false r ys f = ap (λ ls. ls ++ peer_settings (peers_of ys)) (f refl)

drops : (on : Bool) (b : Block) → is_blocked b ≡ true → is_active (status_with on b) ≡ false
drops on unblocked h = cc
drops true block_expired h = refl
drops true block_limit h = refl
drops false block_expired h = refl
drops false block_limit h = refl

settings-head :
    (r : Row) (b : Block) (xs ys : List Row)
    → peer_settings (peers_of xs) ≡ peer_settings (peers_of ys)
    → peer_settings (peers_of (if is_blocked b then xs else r ∷ xs))
      ≡ peer_settings (peers_of (if is_active (status_with r.enabled b) then r ∷ ys else ys))
settings-head r unblocked xs ys h =
    ap (λ ls. peer_setting r.peer ++ ls) h ∙ keeps r.enabled r ys (off-silent r.peer)
settings-head r block_expired xs ys h =
    h
    ∙ sym (
        ap (λ c. peer_settings (peers_of (if c then r ∷ ys else ys)))
          (drops r.enabled block_expired refl))
settings-head r block_limit xs ys h =
    h
    ∙ sym (
        ap (λ c. peer_settings (peers_of (if c then r ∷ ys else ys)))
          (drops r.enabled block_limit refl))

-- What the blocks let through acts in the file like the active devices.
settings-allowed :
    (db : Db) (rs : List Row) (now month : ℕ)
    → AllApart rs
    → peer_settings (peers_of (select (is_allowed (blocks_of db rs now month)) rs))
      ≡ peer_settings (peers_of (active_rows db rs now month))
unfolding blocks_of status
settings-allowed db [] now month h = refl
settings-allowed db (r ∷ rs) now month h =
    let b : Block = blocked r.peer (limit_usage db.usage r month) now in
    ap (λ xs. peer_settings (peers_of xs))
      (allowed-head r b (blocks_of db rs now month) rs h.0 (blocks_of-Lacks db r rs now month h.0))
    ∙ settings-head r b (select (is_allowed (blocks_of db rs now month)) rs)
        (active_rows db rs now month) (settings-allowed db rs now month h.1)

-- A step that only adds to the log.
abbrev pub Extends : CallLog → Manager → Type 0
Extends l m = (rest : CallLog) × (m.log ≡ l ++ rest)

run_next-Extends :
    (l : CallLog) (p : Result (Unit {0}) × Manager) (next : M (Unit {0}))
    → Extends l p.1
    → ((m : Manager) → Extends m.log (next m).1)
    → Extends l (run_next p (λ u. next)).1
run_next-Extends l (err e, m) next h f = h
run_next-Extends l (ok u, m) next (rest, e) f =
    let (more, d) = f m in (rest ++ more, d ∙ ap (λ x. x ++ more) e ∙ append_assoc l rest more)

tell-Extends :
    (env : Env) (node : ℕ) (call : Call) (m : Manager) → Extends m.log (tell env node call m).1
tell-Extends env node call m = ((node, call) ∷ [], refl)

either-Extends :
    (b : Bool) (act other : M (Unit {0})) (m : Manager)
    → Extends m.log (act m).1
    → Extends m.log (other m).1
    → Extends m.log ((if b then act else other) m).1
either-Extends true act other m f g = f
either-Extends false act other m f g = g

more_files-Extends :
    (env : Env) (s : Instance) (limits : Text) (m : Manager)
    → Extends m.log ((write_resolver env s >> write_speeds env s limits) m).1
more_files-Extends env s limits m =
    run_next-Extends m.log (write_resolver env s m) (write_speeds env s limits)
      (either-Extends s.dns_on_server
        (tell env s.node_id (write_file (config_path env s.id resolver_file) (resolver_config s)))
        (tell env s.node_id (remove_all (config_path env s.id resolver_file))) m
        (tell-Extends env s.node_id
          (write_file (config_path env s.id resolver_file) (resolver_config s)) m)
        (tell-Extends env s.node_id (remove_all (config_path env s.id resolver_file)) m))
      (λ k.
        either-Extends (is_empty limits)
          (tell env s.node_id (remove_all (config_path env s.id speed_limits_file)))
          (tell env s.node_id (write_file (config_path env s.id speed_limits_file) limits)) k
          (tell-Extends env s.node_id (remove_all (config_path env s.id speed_limits_file)) k)
          (tell-Extends env s.node_id (write_file (config_path env s.id speed_limits_file) limits)
            k))

-- In a store whose devices do not share IDs, the first call of writeConfig, whatever the machine
-- answers, writes a wg0.conf for the server whose acting lines are the server's settings and a peer
-- section for each of its devices with the status active, in order, and for no other device.
pub write_config-admits :
    (env : Env) (s : Instance) (m : Manager)
    → AllApart m.db.rows
    → (file : Text) × Extends
        (m.log ++ (s.node_id, write_file (config_path env s.id config_file) file) ∷ [])
        (write_config env s m).1
      × (effective file
          ≡ server_settings s (
              peers_of (
                active_rows m.db
                  (select (on_instance s.id) m.db.rows)
                  (env.clock m.ticks)
                  (env.month (env.clock m.ticks)))))
unfolding write_config blocked_peers
write_config-admits env s m apart =
    let found : Found = found_at env m.db s.id (env.clock m.ticks) in
    let ps : List Peer = peers_of (select (is_allowed found.blocks) found.rows) in
    let file : Text = server_config s ps in
    let call : Call = write_file (config_path env s.id config_file) file in
    let l : CallLog = m.log ++ (s.node_id, call) ∷ [] in
    let m1 : Manager = record m { ticks = suc m.ticks } in
    (
      file,
      run_next-Extends l (write_files env s ps m1) (note_blocks env s.id found.blocks)
          (run_next-Extends l (tell env s.node_id call m1)
            (write_resolver env s >> write_speeds env s (speed_limits_config ps))
            ([], sym (append-nil l)) (more_files-Extends env s (speed_limits_config ps)))
          (λ k. ([], sym (append-nil k.log))),
      effective-server_config s ps
          ∙ ap (settings_with s) (
              settings-allowed m.db found.rows (env.clock m.ticks) (env.month (env.clock m.ticks))
                (AllApart-select (on_instance s.id) m.db.rows apart)),
    )
