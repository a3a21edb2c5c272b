-- ===== src/Deploy/Tests.antt =====
-- The theorems about the manager at a panel with one server and one device.
use tunploy.Common.{
  ℕ, suc, ◌+◌, ◌≤◌, ◌<◌, ◌≡◌, refl, sym, subst, true, false, none, some, List, [], ◌∷◌, ◌++◌, All,
  map,
}
use tunploy.Common.Int.{pos, ◌+ℤ◌, wrap64, add64}
use tunploy.Common.Text.{Text, codes}
use tunploy.Apperr.{Result, ok, err, no_container, failure}
use tunploy.Wg.Limits.{block_limit, blocked}
use tunploy.Wg.Stats.{PeerStats, Stats}
use tunploy.Wg.Samples.{office, phone, a_key}
use tunploy.Wg.Config.Laws.{effective, server_settings}
use tunploy.Event.{Event}
use tunploy.Store.Peers.{new_row}
use tunploy.Store.Traffic.{limit_usage, sum_rx, sum_tx}
use tunploy.Deploy.{
  Container, Call, inspect_container, write_file, CallLog, Sample, Manager, Env, entry_of,
  blocks_of, config_file,
}
use tunploy.Deploy.Containers.{found_at, write_config, config_path, peers_of}
use tunploy.Deploy.Activity.{observe_one, sample_of}
use tunploy.Deploy.Watch.{enforce_limits, equal_blocks, same_blocks}
use tunploy.Deploy.Missed.{enforce_limits-missed}
use tunploy.Deploy.Ownership.{Holds, IsOwn}
use tunploy.Deploy.Ownership.Commands.{AnswersByName}
use tunploy.Deploy.Ownership.Histories.{
  up_node, watch_it, remove_it, perform_all, perform_all-IsOwn,
}
use tunploy.Deploy.Presence.{
  Follows, changes_for, observe_all, observe_all-Follows, observe_run, observe_one-window,
}
use tunploy.Deploy.Health.{check_often, check_often-reports}
use tunploy.Deploy.Files.{active_rows, write_config-admits, Extends}
use tunploy.Deploy.Samples.{up, reply, last_answer, env, db, manager}

last_answer-append :
    (r : Result Container) (l : CallLog) (node : ℕ) (call : Call)
    → last_answer r (l ++ (node, call) ∷ []) ≡ reply call
last_answer-append r [] node call = refl
last_answer-append r ((n, c) ∷ l) node call = last_answer-append (reply c) l node call

abbrev refusing : Env
refusing = record env {
  on_inspect = λ l. ok (up (codes "tunploy-wg-1"));
  on_output = λ l. err failure;
}

phone_blocked :
    (e : Env) (t : ℕ) → e.month t ≡ 0 → (found_at e db 1 t).blocks ≡ (1, block_limit) ∷ []
unfolding blocks_of blocked limit_usage sum_rx sum_tx add64 wrap64 ◌+ℤ◌
phone_blocked e t h = rw h refl

not_noted : same_blocks (some []) ((1, block_limit) ∷ []) ≡ false
unfolding equal_blocks
not_noted = refl

enforce_limits-missed_example :
    (m' : Manager) × (enforce_limits refusing office manager ≡ (err failure, m'))
    × (m'.events ≡ [])
    × (enforce_limits env office m' ≡ (ok tt, record m' { ticks = suc m'.ticks }))
enforce_limits-missed_example =
    enforce_limits-missed refusing env office manager ((1, block_limit) ∷ [])
      (up (codes "tunploy-wg-1")) failure (tt, tt) (λ l. refl) (λ l. refl) refl (λ l. refl)
      not_noted (λ t. phone_blocked refusing t refl) (λ t. phone_blocked env t refl)

env-AnswersByName : AnswersByName env
env-AnswersByName l node name =
    subst (Holds (λ (ct : Container). ct.name ≡ name))
      (sym (last_answer-append (err no_container) l node (inspect_container name))) refl

perform_all-IsOwn_example :
    (new : CallLog) × ((perform_all env
        (up_node 0 ∷ watch_it office ∷ remove_it 1 ∷ [])
        manager).log
      ≡ new)
    × All (λ (c : ℕ × Call). IsOwn env c.1) new
perform_all-IsOwn_example =
    perform_all-IsOwn env env-AnswersByName (λ l. (refl, (refl, tt)))
      (up_node 0 ∷ watch_it office ∷ remove_it 1 ∷ []) manager

abbrev reading : ℕ → PeerStats
reading rx = record {
  endpoint = codes "192.0.2.1:5000";
  latest_handshake = none;
  rx = rx;
  tx = 0;
  online = false;
}

abbrev seen_before : Sample
seen_before = record {
  rx = 5;
  since = 0;
  seen = 0;
  grew = false;
  online = false;
  online_since = none;
}

abbrev polls : List (Stats × ℕ)
polls = ((a_key 2, reading 9) ∷ [], 10) ∷ ((a_key 2, reading 9) ∷ [], 90_000_000_000) ∷ []

observe_all-Follows_example :
    (s : Sample) × (sample_of (observe_all ((a_key 2, seen_before) ∷ []) (pos 25) polls).0 (a_key 2)
      ≡ some s)
    × Follows false
        (changes_for (a_key 2) (observe_all ((a_key 2, seen_before) ∷ []) (pos 25) polls).1)
        s.online
observe_all-Follows_example =
    observe_all-Follows ((a_key 2, seen_before) ∷ []) (pos 25) polls (a_key 2) seen_before refl
      (((tt, tt), (reading 9, refl)), (((tt, tt), (reading 9, refl)), tt))

observe_one-window_example :
    ((reading 9).rx ≡ seen_before.rx
      → 0 + 60_000_000_000 ≤ 70_000_000_000
      → (observe_one
          (some (observe_run seen_before (pos 25) ((reading 5, 20_000_000_000) ∷ [])))
          (reading 9)
          (pos 25)
          70_000_000_000).online
        ≡ false)
    × (5 < 9
        → 70_000_000_000
          ≤ (observe_run seen_before (pos 25) ((reading 5, 20_000_000_000) ∷ [])).seen
            + 60_000_000_000
        → (observe_one
            (some (observe_run seen_before (pos 25) ((reading 5, 20_000_000_000) ∷ [])))
            (reading 9)
            (pos 25)
            70_000_000_000).online
          ≡ true)
observe_one-window_example =
    observe_one-window seen_before (pos 25) ((reading 5, 20_000_000_000) ∷ []) (reading 9)
      70_000_000_000 refl (refl, tt)

-- A machine whose container keeps exiting.
abbrev exiting : Env
exiting = record env {
  on_inspect = λ l. ok (record (up (codes "tunploy-wg-1")) { state = codes "restarting" });
}

check_often-reports_example :
    (new : List Event) × ((check_often exiting office 2 manager).events ≡ new)
    × (map (λ (e : Event). e.kind) new ≡ codes "server.down" ∷ [])
    × All (λ (e : Event). e.instance_id ≡ 1) new
    × (entry_of (check_often exiting office 2 manager).down 1 ≡ some true)
check_often-reports_example = check_often-reports exiting office 2 manager false refl

write_config-admits_example :
    (file : Text) × Extends
      ((0, write_file (config_path env 1 config_file) file) ∷ [])
      (write_config env office manager).1
    × (effective file ≡ server_settings office (peers_of (active_rows db (new_row phone ∷ []) 0 0)))
write_config-admits_example = write_config-admits env office manager (tt, tt)
