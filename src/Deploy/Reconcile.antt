-- ===== src/Deploy/Reconcile.antt =====
-- internal/deploy/reconcile.go: a node is brought in line with the database.
use tunploy.Common.{
  ℕ, Bool, true, false, not, ◌&&◌, Option, none, some, List, [], ◌∷◌, ◌++◌, map, ◌==◌,
  if◌then◌else◌, any, all, select, mem, eq_text,
}
use tunploy.Common.Path.{join_path}
use tunploy.Common.Text.{Text, codes}
use tunploy.Apperr.{Result, ok, err, Error, joined}
use tunploy.Wg.Model.{Instance}
use tunploy.Store.Servers.{all_instances}
use tunploy.Store.Nodes.{Node}
use tunploy.Deploy.{
  Container, is_running, list_containers, remove_container, remove_all, read_dir, Manager, Env, M,
  ◌>>=◌, ◌>>◌, pure, lift, state, change, id_text, ask, tell, container_name, owns, host_for,
}
use tunploy.Deploy.Containers.{deploy, apply, attempt, unless_missing, forget}

-- byNode, at one node
abbrev pub on_node : ℕ → List Instance → List Instance
on_node node all = select (λ s. s.node_id == node) all

abbrev pub error_of : Result (Unit {0}) → List Error
error_of (ok u) = []
error_of (err e) = e ∷ []

-- errors.Join: no error when there is none to join.
abbrev join_from : Error → List Error → Error
join_from e [] = e
join_from e (d ∷ ds) = join_from (joined e d) ds

abbrev pub join_errors : List Error → Result (Unit {0})
join_errors [] = ok tt
join_errors (e ∷ es) = err (join_from e es)

abbrev named : Text → Container → Bool
named name ct = eq_text ct.name name

-- byName: of two containers with one name the map keeps the later.
abbrev pub by_name : List Container → Text → Option Container
by_name [] name = none
by_name (ct ∷ cts) name = elim (by_name cts name) [
  | some later ↦ some later
  | none ↦ if named name ct then some ct else none
]

abbrev pub forget_all : List Instance → Manager → Manager
forget_all [] m = m
forget_all (s ∷ ss) m = forget_all ss (forget s.id m)

-- MarkRebuild
unfoldable pub mark_rebuild : Manager → Manager
mark_rebuild m = record m {
  activity = [];
  blocked = [];
  down = [];
  rebuild = 0 ∷ map (λ (n : Node). n.id) m.nodes;
}

-- takeRebuild
unfoldable pub take_rebuild : ℕ → M Bool
take_rebuild node m =
    (ok (mem node m.rebuild), record m { rebuild = select (λ n. not (n == node)) m.rebuild })

module _ (env : Env) where
  abbrev is_known : List Instance → Text → Bool
  is_known instances name = any (λ s. eq_text (container_name env s.id) name) instances

  -- removeStaleConfigs
  abbrev pub remove_stale : ℕ → List Instance → List Text → M (Unit {0})
  remove_stale node instances [] = pure tt
  remove_stale node instances (name ∷ names) =
      if any (λ s. eq_text (id_text s.id) name) instances
      then remove_stale node instances names
      else tell env node (remove_all (join_path (codes "wireguard" ∷ []) name))
        >> remove_stale node instances names

  unfoldable pub remove_stale_configs : ℕ → List Instance → M (Unit {0})
  remove_stale_configs node instances =
      ask env env.on_names node (read_dir (codes "wireguard" ∷ [])) >>= λ names.
      remove_stale node instances names

  abbrev pub drop_container : ℕ → Container → M (Unit {0})
  drop_container node ct = attempt (tell env node (remove_container ct.name)) >>= unless_missing

  -- Stops at the first removal that fails.
  abbrev pub remove_owned : ℕ → List Container → M (Unit {0})
  remove_owned node [] = pure tt
  remove_owned node (ct ∷ cts) =
      if owns env ct then drop_container node ct >> remove_owned node cts else remove_owned node cts

  -- One server of the loop in reconcile.
  abbrev pub bring : Instance → Option Container → M (Unit {0})
  bring s none = deploy env s true
  bring s (some ct) =
      if eq_text ct.image env.image then apply env s else deploy env s (is_running ct)

  abbrev pub bring_all : List Container → List Instance → M (List Error)
  bring_all cts [] = pure []
  bring_all cts (s ∷ ss) = attempt (bring s (by_name cts (container_name env s.id))) >>= λ done.
      bring_all cts ss >>= λ es. pure (error_of done ++ es)

  abbrev pub is_orphan : List Instance → Container → Bool
  is_orphan instances ct = owns env ct && not (is_known instances ct.name)

  abbrev pub remove_orphans : ℕ → List Container → M (List Error)
  remove_orphans node [] = pure []
  remove_orphans node (ct ∷ cts) = attempt (drop_container node ct) >>= λ done.
      remove_orphans node cts >>= λ es. pure (error_of done ++ es)

  -- reconcile: an error is kept for the end, except that of the list of containers.
  unfoldable pub reconcile : ℕ → List Instance → M (Unit {0})
  reconcile node instances = ask env env.on_list node list_containers >>= λ cts.
      bring_all cts instances >>= λ es.
      remove_orphans node (select (is_orphan instances) cts) >>= λ fs.
      attempt (remove_stale_configs node instances) >>= λ done.
      lift (join_errors (es ++ fs ++ error_of done))

  abbrev pub deploy_all : List Instance → M (List Error)
  deploy_all [] = pure []
  deploy_all (s ∷ ss) =
      attempt (deploy env s true) >>= λ done. deploy_all ss >>= λ es. pure (error_of done ++ es)

  -- rebuildNode
  unfoldable pub rebuild_node : ℕ → List Instance → M (Unit {0})
  rebuild_node node instances = ask env env.on_list node list_containers >>= λ cts.
      remove_owned node cts >>= λ u. remove_stale_configs node instances >>= λ v.
      deploy_all instances >>= λ es. lift (join_errors es)

  abbrev pub in_line : ℕ → List Instance → Bool → M (Unit {0})
  in_line node instances true = rebuild_node node instances
  in_line node instances false = reconcile node instances

  -- NodeUp and Reconcile
  unfoldable pub node_up : ℕ → M (Unit {0})
  node_up node =
      host_for env node
      >> (state >>= λ m.
          take_rebuild node >>= λ pending. in_line node (on_node node (all_instances m.db)) pending)

  -- RemoveNode
  unfoldable pub remove_node : ℕ → M (Unit {0})
  remove_node node =
      host_for env node
      >> (ask env env.on_list node list_containers >>= λ cts. remove_owned node cts >>= λ u.
          state >>= λ m. change (forget_all (on_node node (all_instances m.db))))

  -- Rebuild
  unfoldable pub rebuild : M (Unit {0})
  rebuild = change mark_rebuild >> node_up 0
