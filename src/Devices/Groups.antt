-- ===== src/Devices/Groups.antt =====
-- internal/peer/group.go: every device with one external_id, changed together.
pub mod Tunnels
pub mod Answers
use tunploy.Common.{
  ℕ, zero, suc, ◌+◌, ◌-◌, ◌*◌, ◌/◌, ◌%◌, ◌^◌, ◌≤◌, ◌<◌, ◌≡◌, refl, sym, ap, ap₂, subst, ◌∙◌, ◌≢◌,
  ◌↔◌, ◌⊎◌, inl, inr, Bool, true, false, not, ◌&&◌, ◌||◌, Option, none, some, List, [], ◌∷◌, ◌++◌,
  map, append_assoc, append-nil, arith, ltb, leb, ◌==◌, if◌then◌else◌, ltb→lt, lt→ltb, leb→le,
  le→leb, ==_iff, ==_refl, tests, and_true, Bool-cases, Option-cases, is_some, length,
  length-append, replicate, is_empty, find, any, all, select, update_where, All, All-append,
  All-select, All-find, All-update_where, All-mono, mem, mem-append, eq_text, eq_text_refl,
  eq_text_sound, get_or, set, length-set, get_or-set_self,
}
use tunploy.Apperr.{Result, ok, err, Error, ◌>>=◌, ◌>>◌, fields_error}
use tunploy.Wg.Model.{Instance, Peer}
use tunploy.Wg.Validate.{validate_peer}
use tunploy.Store.Tables.{Db, instance_by_id}
use tunploy.Store.Servers.{load_instance}
use tunploy.Devices.{
  World, Env, Clock, apply_error, join_errors, call_tunnel, save, reset_saved, remove,
}

-- One device of a group: its server's ID, and what is saved for it when its server is known.
abbrev pub Job : Type 0
Job = ℕ × (Instance → World → Result (Option Peer × World))

-- The server, and the servers met so far.
abbrev pub server_of : List Instance → ℕ → Db → Option Instance → Result (Instance × List Instance)
server_of met id db (some s) = ok (s, met)
server_of met id db none = load_instance db id >>= λ s. ok (s, met ++ s ∷ [])

-- The loop of each: the servers it met, the saved devices or the error of the save it stopped at,
-- and the world then.
pub record Progress : Type 0 where
  pub met : List Instance
  pub result : Result (List Peer)
  pub world : World

abbrev pub kept : Option Peer → List Peer → List Peer
kept none ps = ps
kept (some p) ps = p ∷ ps

abbrev pub put_first : Option Peer → Progress → Progress
put_first p g = record g { result = g.result >>= λ ps. ok (kept p ps) }

pub save_each : List Instance → List Job → World → Progress
save_each met [] w = record { met = met; result = ok []; world = w }
save_each met ((id, job) ∷ jobs) w = elim (server_of met id w.db (instance_by_id met id)) [
  | err e ↦ record { met = met; result = err e; world = w }
  | ok found ↦ elim (job found.0 w) [
    | err e ↦ record { met = found.1; result = err e; world = w }
    | ok saved ↦ put_first saved.0 (save_each found.1 jobs saved.1)
  ]
]

module _ (env : Env) where
  -- Apply for each ID in order, with the errors joined.
  pub apply_all : List ℕ → World → Option Error × World
  apply_all [] w = (none, w)
  apply_all (id ∷ ids) w =
      let first = call_tunnel env id w in
      let rest = apply_all ids first.1 in (join_errors first.0 rest.0, rest.1)

  abbrev pub conclude : Result (List Peer) → Option Error × World → Result (List Peer) × World
  conclude (err e) (d, w) = (err e, w)
  conclude (ok ps) (some d, w) = (err (apply_error d), w)
  conclude (ok ps) (none, w) = (ok ps, w)

  -- each
  pub each : List Job → World → Result (List Peer) × World
  each jobs w =
      let g = save_each [] jobs w in
      conclude g.result (apply_all (map (λ (s : Instance). s.id) g.met) g.world)

  abbrev pub check_all : List Peer → Result (Unit {0})
  check_all [] = ok tt
  check_all (p ∷ ps) = fields_error (validate_peer env.is_json p) >> check_all ps

  abbrev pub keep_saved : Result (Peer × World) → Result (Option Peer × World)
  keep_saved r = r >>= λ c. ok (some c.0, c.1)

  abbrev pub update_jobs : Clock → List (Peer × Peer) → List Job
  update_jobs t [] = []
  update_jobs t ((before, after) ∷ ps) =
      (before.instance_id, λ s w. keep_saved (save env s before after t w)) ∷ update_jobs t ps

  -- UpdateGroup, of devices paired with what they become.
  pub update_group : List (Peer × Peer) → Clock → World → Result (List Peer) × World
  update_group ps t w = elim (check_all (map (λ (c : Peer × Peer). c.1) ps)) [
    | err e ↦ (err e, w)
    | ok u ↦ each (update_jobs t ps) w
  ]

  abbrev pub delete_jobs : List Peer → List Job
  delete_jobs [] = []
  delete_jobs (p ∷ ps) =
      (p.instance_id, λ s w. remove env s p w >>= λ c. ok (none, c.1)) ∷ delete_jobs ps

  -- DeleteGroup
  pub delete_group : List Peer → World → Result (List Peer) × World
  delete_group ps w = each (delete_jobs ps) w

  abbrev pub reset_jobs : Clock → List Peer → List Job
  reset_jobs t [] = []
  reset_jobs t (p ∷ ps) =
      (p.instance_id, λ s w. keep_saved (reset_saved env s p t w)) ∷ reset_jobs t ps

  -- ResetGroupUsage
  pub reset_group_usage : List Peer → Clock → World → Result (List Peer) × World
  reset_group_usage ps t w = each (reset_jobs t ps) w
