-- ===== src/Servers/Creation.antt =====
-- internal/instance/instance.go: what is left of a server whose deployment fails.
use tunploy.Common.{
  ℕ, ◌≡◌, refl, inl, inr, Bool, true, false, not, Option, none, some, List, [], ◌∷◌, ◌++◌, arith,
  ◌==◌, if◌then◌else◌, Bool-cases, Option-cases, any, select,
}
use tunploy.Common.Text.{codes}
use tunploy.Apperr.{Result, ok, err, Error, missing}
use tunploy.Wg.Model.{Instance}
use tunploy.Event.{Event, for_instance}
use tunploy.Store.Tables.{Row, instance_by_id}
use tunploy.Store.Peers.{on_instance}
use tunploy.Store.Servers.{delete_instance}
use tunploy.Deploy.{Manager, Env, ◌>>◌, pure, fail, add_event}
use tunploy.Deploy.Containers.{deploy_by_id, remove}
use tunploy.Servers.Commands.{
  deploy_error, forget_row, provisioned, provision, error_is, is_offline, delete_row, deleted,
  delete_server,
}

find-select :
    (id : ℕ) (is : List Instance) → instance_by_id (select (λ s. not (s.id == id)) is) id ≡ none
find-select id [] = refl
find-select id (s ∷ is) = let rest = find-select id is in ground arith

forget_row-gone : (id : ℕ) (m : Manager) → instance_by_id (forget_row id m).db.instances id ≡ none
unfolding delete_instance
forget_row-gone id m = elim (Option-cases (instance_by_id m.db.instances id)) [
  | inl none_there ↦ rw (forget_row, none_there) none_there
  | inr (s, there) ↦ rw (forget_row, there) (find-select id m.db.instances)
]

-- What the end of a deployment leaves: the journal's last entry, and no row after a failure.
abbrev pub Ends : Env → Instance → Result (Unit {0}) → Result (Unit {0}) × Manager → Type 0
Ends env s (ok u) (r, m) =
    (r ≡ ok tt)
    × ((before : List Event) × (m.events ≡ before ++ for_instance (codes "server.created") s ∷ []))
Ends env s (err e) (r, m) =
    (r ≡ err (deploy_error e))
    × (instance_by_id m.db.instances s.id ≡ none)
    × ((before : List Event) × (m.events
          ≡ before
            ++ record (for_instance (codes "server.deploy_failed") s) { detail = env.error_text e }
              ∷ []))

provisioned-Ends :
    (env : Env) (s : Instance) (r : Result (Unit {0})) (m : Manager)
    → Ends env s r (provisioned env s r m)
provisioned-Ends env s (ok u) m = (refl, (m.events, refl))
provisioned-Ends env s (err e) m = (refl, forget_row-gone s.id (remove env s.id m).1, (_, refl))

-- When the server is deployed, the caller gets no error and the journal ends with its creation.
-- When it is not, whatever the removal of what is there answers, its row is gone, the caller gets
-- the reason, and the journal ends with the failure and that reason.
pub provision-Ends :
    (env : Env) (s : Instance) (m : Manager)
    → Ends env s (deploy_by_id env s.id true m).0 (provision env s m)
unfolding provision
provision-Ends env s m =
    provisioned-Ends env s (deploy_by_id env s.id true m).0 (deploy_by_id env s.id true m).1

rows-select :
    (id : ℕ) (rs : List Row)
    → any (on_instance id) (select (λ r. not (on_instance id r)) rs) ≡ false
rows-select id [] = refl
rows-select id (r ∷ rs) = elim (Bool-cases (on_instance id r)) [
  | inl on ↦ rw on (rows-select id rs)
  | inr off ↦ rw (off, off) (rows-select id rs)
]

-- What is left of a server that the store knows; of one it does not know nothing can be deleted.
abbrev Forgotten : Instance → Manager → Option Instance → Result (Unit {0}) × Manager → Type 0
Forgotten s before none result = result ≡ (err missing, before)
Forgotten s before (some x) (r, m) =
    (r ≡ ok tt)
    × (instance_by_id m.db.instances s.id ≡ none)
    × (any (on_instance s.id) m.db.rows ≡ false)
    × (m.events ≡ before.events ++ for_instance (codes "server.deleted") s ∷ [])

-- What a deletion leaves, by what the removal of the container answered.
abbrev pub Goes : Instance → Result (Unit {0}) → Manager → Result (Unit {0}) × Manager → Type 0
Goes s (ok u) before result = Forgotten s before (instance_by_id before.db.instances s.id) result
Goes s (err e) before result =
    if error_is is_offline e
    then Forgotten s before (instance_by_id before.db.instances s.id) result
    else result ≡ (err (deploy_error e), before)

forgotten_lem :
    (env : Env) (s : Instance) (m : Manager)
    → Forgotten s m (instance_by_id m.db.instances s.id) (deleted env s (ok tt) m)
unfolding delete_instance
forgotten_lem env s m = elim (Option-cases (instance_by_id m.db.instances s.id)) [
  | inl unknown ↦ rw unknown refl
  | inr (x, known) ↦
      rw known (refl, find-select s.id m.db.instances, rows-select s.id m.db.rows, refl)
]

-- The rest of a deletion, whose first step goes on or gives up.
rest-Goes :
    (env : Env) (s : Instance) (e : Error) (m : Manager) (offline : Bool)
    → (if offline
        then Forgotten s m (instance_by_id m.db.instances s.id) (
            ((if offline then pure tt else fail (deploy_error e))
                >> delete_row s.id
                >> add_event (for_instance (codes "server.deleted") s))
              m)
        else ((((if offline then pure tt else fail (deploy_error e))
                >> delete_row s.id
                >> add_event (for_instance (codes "server.deleted") s))
              m)
            ≡ (err (deploy_error e), m)))
rest-Goes env s e m true = forgotten_lem env s m
rest-Goes env s e m false = refl

deleted-Goes :
    (env : Env) (s : Instance) (r : Result (Unit {0})) (m : Manager)
    → Goes s r m (deleted env s r m)
deleted-Goes env s (ok u) m = forgotten_lem env s m
deleted-Goes env s (err e) m = rest-Goes env s e m (error_is is_offline e)

-- A server that the store knows is deleted with its devices when its container is removed and also
-- when its machine is offline, and the journal then ends with the deletion. Any other error of the
-- removal comes back to the caller and the store and the journal stay as the removal left them.
pub delete_server-Goes :
    (env : Env) (s : Instance) (m : Manager)
    → Goes s (remove env s.id m).0 (remove env s.id m).1 (delete_server env s m)
unfolding delete_server
delete_server-Goes env s m = deleted-Goes env s (remove env s.id m).0 (remove env s.id m).1
