-- ===== src/Servers/Commands.antt =====
-- internal/instance/instance.go: the commands on servers, as steps of the manager, which holds the
-- store and the events.
use tunploy.Common.{
  ℕ, Bool, true, false, not, ◌&&◌, ◌||◌, Option, none, some, List, [], ◌∷◌, ◌==◌, if◌then◌else◌,
  is_some,
}
use tunploy.Common.Int.{eqz}
use tunploy.Common.Text.{Text, codes}
use tunploy.Apperr.{
  Result, ok, err, Error, wrap, joined, missing, offline, docker_unavailable, Message, plain,
  format, cause, Fields, flag, upstream, not_found, unavailable,
}
use tunploy.Wg.Net.{Addr, Prefix, eq_addr}
use tunploy.Wg.Model.{Instance}
use tunploy.Event.{for_instance}
use tunploy.Store.Servers.{create_instance, update_instance, delete_instance}
use tunploy.Deploy.{
  Manager, Env, M, ◌>>=◌, ◌>>◌, pure, fail, lift, state, change, read_clock, add_event,
}
use tunploy.Deploy.Containers.{
  attempt, deploy_by_id, redeploy, start, stop, restart, remove, apply_by_id,
}
use tunploy.Servers.{
  Change, Outside, Defaults, given, applied, unparsed, node_error, on_error, duplicate_error,
  stored, check,
}
use tunploy.Servers.Requests.{defaults, requested, create_fields}

-- errors.Is for an error without fields
abbrev pub error_is : (Error → Bool) → Error → Bool
error_is test (wrap k c m f e) = error_is test e
error_is test (joined d e) = error_is test d || error_is test e
error_is test e = test e

abbrev is_missing : Error → Bool
is_missing missing = true
is_missing _ = false

abbrev pub is_offline : Error → Bool
is_offline offline = true
is_offline _ = false

abbrev is_unreachable : Error → Bool
is_unreachable docker_unavailable = true
is_unreachable _ = false

abbrev caused : Message
caused = format "%s" (cause ∷ [])

-- deployError: the last case that holds decides.
pub deploy_error : Error → Error
deploy_error e =
    if error_is is_missing e
    then wrap not_found "not_found" (plain "instance not found") [] e
    else (if error_is is_offline e
        then wrap unavailable "node_offline" caused [] e
        else (if error_is is_unreachable e
            then wrap unavailable "docker_unavailable"
                (format "docker is not reachable: %s" (cause ∷ [])) [] e
            else wrap upstream "deploy_failed" caused [] e))

-- applyError
abbrev not_live : Error → Error
not_live e =
    wrap upstream "apply_failed"
      (format "saved, but the running tunnel could not be updated (restart it to apply): %s"
        (cause ∷ []))
      [] e

abbrev eq_bits : Option ℕ → Option ℕ → Bool
eq_bits none none = true
eq_bits (some a) (some b) = a == b
eq_bits _ _ = false

abbrev same_prefix : Prefix → Prefix → Bool
same_prefix p q = eq_addr p.addr q.addr && eq_bits p.bits q.bits

abbrev same_addrs : List Addr → List Addr → Bool
same_addrs [] [] = true
same_addrs [] (b ∷ bs) = false
same_addrs (a ∷ xs) [] = false
same_addrs (a ∷ xs) (b ∷ ys) = eq_addr a b && same_addrs xs ys

abbrev same_bool : Bool → Bool → Bool
same_bool true b = b
same_bool false b = not b

module _ (out : Outside) (env : Env) where
  -- Create
  create_server : Change → Defaults → ℕ → M Instance
  create_server c d seed = state >>= λ m.
      lift (
        on_error out (node_error out)
          (defaults out m.db.instances m.nodes (given c.node_id 0) d seed))
      >>= λ base.
          (let s = requested out m.db.instances c base in
            check out s (create_fields out m.db.instances c s)
            >> (read_clock env >>= λ now.
                stored out (on_error out (duplicate_error out) (create_instance m.db s now))))

abbrev pub forget_row : ℕ → Manager → Manager
forget_row id m = elim (delete_instance m.db id) [ err e ↦ m | ok db ↦ record m { db = db } ]

abbrev pub delete_row : ℕ → M (Unit {0})
delete_row id m = elim (delete_instance m.db id) [
  | err e ↦ (err e, m)
  | ok db ↦ (ok tt, record m { db = db })
]

module _ (env : Env) where
  -- rollback: neither of its errors stops it.
  abbrev roll_back : ℕ → M (Unit {0})
  roll_back id = attempt (remove env id) >>= λ r. change (forget_row id)

  abbrev pub provisioned : Instance → Result (Unit {0}) → M (Unit {0})
  provisioned s (ok u) = add_event (for_instance (codes "server.created") s)
  provisioned s (err e) =
      roll_back s.id
      >> (add_event
            (record (for_instance (codes "server.deploy_failed") s) { detail = env.error_text e })
          >> fail (deploy_error e))

  -- Provision
  unfoldable pub provision : Instance → M (Unit {0})
  provision s = attempt (deploy_by_id env s.id true) >>= provisioned s

  abbrev or_deploy_error : Result (Unit {0}) → M (Unit {0})
  or_deploy_error (ok u) = pure tt
  or_deploy_error (err e) = fail (deploy_error e)

  -- act
  abbrev act : Instance → Text → M (Unit {0}) → M (Unit {0})
  act s kind action = attempt action >>= or_deploy_error >>= λ u. add_event (for_instance kind s)

  start_server : Instance → M (Unit {0})
  start_server s = act s (codes "server.started") (start env s.id)

  stop_server : Instance → M (Unit {0})
  stop_server s = act s (codes "server.stopped") (stop env s.id)

  restart_server : Instance → M (Unit {0})
  restart_server s = act s (codes "server.restarted") (restart env s.id)

  abbrev unless_offline_error : Result (Unit {0}) → M (Unit {0})
  unless_offline_error (ok u) = pure tt
  unless_offline_error (err e) = if error_is is_offline e then pure tt else fail (deploy_error e)

  abbrev pub deleted : Instance → Result (Unit {0}) → M (Unit {0})
  deleted s r =
      unless_offline_error r
      >> delete_row s.id
      >> add_event (for_instance (codes "server.deleted") s)

  -- Delete
  unfoldable pub delete_server : Instance → M (Unit {0})
  delete_server s = attempt (remove env s.id) >>= deleted s

module _ (out : Outside) (env : Env) where
  abbrev update_fields : Change → Instance → Instance → Fields → Fields
  update_fields c current s fs =
      flag (is_some c.max_devices) "max_devices"
        (plain "max_devices only applies when creating a server")
        (flag (not (same_prefix s.address current.address)) "address"
          (plain "address cannot be changed once peers may hold configs for it")
          (flag (not (given c.node_id current.node_id == current.node_id)) "node_id"
            (plain "a server cannot move to another node") fs))

  abbrev or_not_live : Result (Unit {0}) → M (Unit {0})
  or_not_live (ok u) = pure tt
  or_not_live (err e) = fail (not_live e)

  -- The container follows where it has to.
  abbrev follow : Instance → Instance → M (Unit {0})
  follow current s =
      if not (eqz s.listen_port current.listen_port) || not (eqz s.mtu current.mtu)
      then attempt (redeploy env s.id) >>= or_deploy_error env
      else (if not (same_bool s.dns_on_server current.dns_on_server)
            || not (same_addrs s.dns current.dns)
          then attempt (apply_by_id env s.id) >>= or_not_live
          else pure tt)

  -- Update
  update_server : Instance → Change → M Instance
  update_server current c =
      let s = applied out c current in
      check out s (update_fields c current s (unparsed out c))
      >> (state >>= λ m. read_clock env >>= λ now.
          stored out (on_error out (duplicate_error out) (update_instance m.db s now)) >>= λ t.
          add_event (for_instance (codes "server.updated") t) >>= λ u.
          follow current t >>= λ v. pure t)
