-- ===== src/Deploy/Ownership/Histories.antt =====
-- Histories of the manager's operations.
use tunploy.Common.{ℕ, ◌≡◌, Bool, List, [], ◌∷◌, ◌++◌, All}
use tunploy.Wg.Model.{Instance}
use tunploy.Store.Tables.{Db}
use tunploy.Deploy.{Call, CallLog, Manager, Env, M, change}
use tunploy.Deploy.Containers.{deploy_by_id, redeploy, start, stop, restart, remove, apply_by_id}
use tunploy.Deploy.Reconcile.{node_up, remove_node, rebuild}
use tunploy.Deploy.Watch.{watch_instance}
use tunploy.Deploy.Ownership.{IsOwn, Always, Does, Adds-none, Adds-trans}
use tunploy.Deploy.Ownership.Commands.{
  AnswersByName, ListsNames, deploy_by_id-Does, redeploy-Does, start-Does, stop-Does, restart-Does,
  remove-Does, apply_by_id-Does,
}
use tunploy.Deploy.Ownership.Nodes.{node_up-Does, remove_node-Does, rebuild-Does}
use tunploy.Deploy.Ownership.Watching.{watch_instance-Does}

-- The operations of the manager, and a change of the store by another part of the panel.
pub data Operation : Type 0 where
  deploy_it : ℕ → Bool → Operation
  redeploy_it start_it stop_it restart_it remove_it apply_it : ℕ → Operation
  up_node drop_node : ℕ → Operation
  rebuild_all : Operation
  watch_it : Instance → Operation
  other_store : Db → Operation

abbrev perform : Env → Operation → M (Unit {0})
perform env (deploy_it id start) = deploy_by_id env id start
perform env (redeploy_it id) = redeploy env id
perform env (start_it id) = start env id
perform env (stop_it id) = stop env id
perform env (restart_it id) = restart env id
perform env (remove_it id) = remove env id
perform env (apply_it id) = apply_by_id env id
perform env (up_node node) = node_up env node
perform env (drop_node node) = remove_node env node
perform env rebuild_all = rebuild env
perform env (watch_it s) = watch_instance env s
perform env (other_store db) = change (λ m. record m { db = db })

-- One operation after the other, whether they fail or not.
abbrev pub perform_all : Env → List Operation → Manager → Manager
perform_all env [] m = m
perform_all env (o ∷ os) m = perform_all env os (perform env o m).1

perform-Does :
    (env : Env)
    → AnswersByName env
    → ListsNames env
    → (o : Operation) → Does env Always (perform env o)
perform-Does env answers lists (deploy_it id start) = deploy_by_id-Does env answers id start
perform-Does env answers lists (redeploy_it id) = redeploy-Does env answers id
perform-Does env answers lists (start_it id) = start-Does env answers id
perform-Does env answers lists (stop_it id) = stop-Does env answers id
perform-Does env answers lists (restart_it id) = restart-Does env answers id
perform-Does env answers lists (remove_it id) = remove-Does env answers id
perform-Does env answers lists (apply_it id) = apply_by_id-Does env answers id
perform-Does env answers lists (up_node node) = node_up-Does env answers lists node
perform-Does env answers lists (drop_node node) = remove_node-Does env answers lists node
perform-Does env answers lists rebuild_all = rebuild-Does env answers lists
perform-Does env answers lists (watch_it s) = watch_instance-Does env answers s
perform-Does env answers lists (other_store db) = λ m. (Adds-none env m.log, tt)

-- If a machine answers each inspection with the container of the name that was asked for, and lists a
-- directory by names (not empty, without a slash, and neither `.` nor `..`), then whatever else the
-- machines answer, every call that a history of operations adds to the log names only containers
-- whose names have the panel's prefix, only files within the servers' own directories, by paths that
-- never lead back up, and only the panel's image.
pub perform_all-IsOwn :
    (env : Env)
    → AnswersByName env
    → ListsNames env
    → (os : List Operation) (m : Manager)
    → (new : CallLog) × ((perform_all env os m).log ≡ m.log ++ new)
      × All (λ (c : ℕ × Call). IsOwn env c.1) new
perform_all-IsOwn env answers lists [] m = Adds-none env m.log
perform_all-IsOwn env answers lists (o ∷ os) m =
    let m1 : Manager = (perform env o m).1 in
    Adds-trans env m.log m1.log (perform_all env os m1).log (perform-Does env answers lists o m).0
      (perform_all-IsOwn env answers lists os m1)
