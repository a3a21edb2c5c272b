-- ===== src/Deploy/Ownership/Nodes.antt =====
-- Bringing a node in line removes only containers that the manager owns.
use tunploy.Common.{
  ℕ, ◌≡◌, refl, inl, inr, Bool, true, false, Option, none, some, List, [], ◌∷◌, ◌++◌, and_true,
  Bool-cases, any, select, All, eq_text, eq_text_sound,
}
use tunploy.Common.Path.{is_name, join_path, join_path-name}
use tunploy.Common.Text.{Text, codes}
use tunploy.Apperr.{Result, Error}
use tunploy.Wg.Model.{Instance}
use tunploy.Store.Servers.{all_instances}
use tunploy.Deploy.{
  Container, is_running, list_containers, remove_all, read_dir, Manager, Env, M, ◌>>=◌, ◌>>◌, pure,
  lift, state, change, ask, tell, container_name, owns, has_name, id_text, host_for,
}
use tunploy.Deploy.Containers.{attempt, deploy, apply, forget}
use tunploy.Deploy.Reconcile.{
  on_node, error_of, join_errors, by_name, remove_stale, remove_stale_configs, drop_container,
  remove_owned, bring, bring_all, is_orphan, remove_orphans, reconcile, deploy_all, rebuild_node,
  take_rebuild, in_line, node_up, forget_all, remove_node, mark_rebuild, rebuild,
}
use tunploy.Deploy.Ownership.{
  IsPrefixed, IsInside, Does-ask, Holds, Always, Does, Does-pure, Does-lift, Does-change, Does->>=,
  Does->>, Does-call, Does-attempt, Does-if, Adds-none,
}
use tunploy.Deploy.Ownership.Commands.{
  AnswersByName, ListsNames, idle-Does, tell-Does, removal-Does, deploy-Does, apply-Does,
  host_for-Does,
}

named_own :
    (env : Env) (name : Text) (label : Option Text)
    → has_name env name label ≡ true
    → IsPrefixed env name
named_own env name none h = absurd (cc)
named_own env name (some id) h = (id, eq_text_sound name (env.prefix ++ id) h)

owned : (env : Env) (ct : Container) → owns env ct ≡ true → IsPrefixed env ct.name
unfolding owns
owned env ct h = named_own env ct.name ct.label h

joined-Always : (es : List Error) → Holds Always (join_errors es)
joined-Always [] = tt
joined-Always (e ∷ es) = tt

module _ (env : Env) (answers : AnswersByName env) (lists : ListsNames env) where
  none-Does : Does env (Always {A = List Error}) (pure [])
  none-Does = Does-pure env (Always {A = List Error}) [] tt

  drop_container-Does :
      (node : ℕ) (ct : Container)
      → owns env ct ≡ true
      → Does env Always (drop_container env node ct)
  drop_container-Does node ct h = removal-Does env answers node ct.name (owned env ct h)

  remove_owned-Does :
      (node : ℕ) (cts : List Container) → Does env Always (remove_owned env node cts)
  remove_owned-Does node [] = idle-Does env
  remove_owned-Does node (ct ∷ cts) = elim (Bool-cases (owns env ct)) [
    | inl h ↦ rw h (
        Does->> env Always (drop_container env node ct) (remove_owned env node cts)
          (drop_container-Does node ct h) (remove_owned-Does node cts))
    | inr h ↦ rw h (remove_owned-Does node cts)
  ]

  stale_own :
      (name : Text) → is_name name ≡ true → IsInside (join_path (codes "wireguard" ∷ []) name)
  stale_own name fine = (name, [], join_path-name (codes "wireguard") name refl fine, (fine, tt))

  remove_stale-Does :
      (node : ℕ) (ss : List Instance) (names : List Text)
      → All (λ n. is_name n ≡ true) names
      → Does env Always (remove_stale env node ss names)
  remove_stale-Does node ss [] h = idle-Does env
  remove_stale-Does node ss (name ∷ names) h =
      let drop : M (Unit {0}) =
        tell env node (remove_all (join_path (codes "wireguard" ∷ []) name)) in
      Does-if env Always (any (λ (s : Instance). eq_text (id_text s.id) name) ss)
        (remove_stale env node ss names) (drop >> remove_stale env node ss names)
        (remove_stale-Does node ss names h.1)
        (Does->> env Always drop (remove_stale env node ss names)
          (tell-Does env answers node (remove_all (join_path (codes "wireguard" ∷ []) name))
            (stale_own name h.0))
          (remove_stale-Does node ss names h.1))

  stale-Does : (node : ℕ) (ss : List Instance) → Does env Always (remove_stale_configs env node ss)
  unfolding remove_stale_configs
  stale-Does node ss =
      Does->>= env (λ names. All (λ n. is_name n ≡ true) names) Always
        (ask env env.on_names node (read_dir (codes "wireguard" ∷ []))) (remove_stale env node ss)
        (Does-ask env (λ names. All (λ n. is_name n ≡ true) names) env.on_names node
          (read_dir (codes "wireguard" ∷ [])) refl
          (λ l. lists (l ++ (node, read_dir (codes "wireguard" ∷ [])) ∷ [])))
        (λ names q. remove_stale-Does node ss names q)

  -- A loop that keeps the errors of its steps.
  collected-Does :
      (act : M (Unit {0})) (rest : M (List Error))
      → Does env Always act
      → Does env Always rest
      → Does env Always (attempt act >>= λ done. rest >>= λ es. pure (error_of done ++ es))
  collected-Does act rest f g =
      let close : Result (Unit {0}) → List Error → M (List Error) =
        λ done es. pure (error_of done ++ es) in
      Does->>= env (Holds Always) Always (attempt act) (λ done. rest >>= close done)
        (Does-attempt env Always act f)
        (λ done q.
          Does->>= env Always Always rest (close done) g
            (λ es p. Does-pure env Always (error_of done ++ es) tt))

  bring-Does : (s : Instance) (o : Option Container) → Does env Always (bring env s o)
  bring-Does s none = deploy-Does env answers s true
  bring-Does s (some ct) =
      Does-if env Always (eq_text ct.image env.image) (apply env s) (deploy env s (is_running ct))
        (apply-Does env answers s) (deploy-Does env answers s (is_running ct))

  bring_all-Does :
      (cts : List Container) (ss : List Instance) → Does env Always (bring_all env cts ss)
  bring_all-Does cts [] = none-Does
  bring_all-Does cts (s ∷ ss) =
      collected-Does (bring env s (by_name cts (container_name env s.id))) (bring_all env cts ss)
        (bring-Does s (by_name cts (container_name env s.id))) (bring_all-Does cts ss)

  remove_orphans-Does :
      (node : ℕ) (cts : List Container)
      → All (λ (ct : Container). owns env ct ≡ true) cts
      → Does env Always (remove_orphans env node cts)
  remove_orphans-Does node [] h = none-Does
  remove_orphans-Does node (ct ∷ cts) h =
      collected-Does (drop_container env node ct) (remove_orphans env node cts)
        (drop_container-Does node ct h.0) (remove_orphans-Does node cts h.1)

  orphans_owned :
      (ss : List Instance) (cts : List Container)
      → All (λ (ct : Container). owns env ct ≡ true) (select (is_orphan env ss) cts)
  orphans_owned ss [] = tt
  orphans_owned ss (ct ∷ cts) = elim (Bool-cases (is_orphan env ss ct)) [
    | inl h ↦ rw h ((and_true (owns env ct) _ h).0, orphans_owned ss cts)
    | inr h ↦ rw h (orphans_owned ss cts)
  ]

  deploy_all-Does : (ss : List Instance) → Does env Always (deploy_all env ss)
  deploy_all-Does [] = none-Does
  deploy_all-Does (s ∷ ss) =
      collected-Does (deploy env s true) (deploy_all env ss) (deploy-Does env answers s true)
        (deploy_all-Does ss)

  reconcile-Does : (node : ℕ) (ss : List Instance) → Does env Always (reconcile env node ss)
  unfolding reconcile
  reconcile-Does node ss =
      let close : List Error → List Error → Result (Unit {0}) → M (Unit {0}) =
        λ es fs done. lift (join_errors (es ++ fs ++ error_of done)) in
      let sweep : List Error → List Error → M (Unit {0}) =
        λ es fs. attempt (remove_stale_configs env node ss) >>= close es fs in
      let drop : List Container → List Error → M (Unit {0}) =
        λ cts es. remove_orphans env node (select (is_orphan env ss) cts) >>= sweep es in
      Does->>= env Always Always (ask env env.on_list node list_containers)
        (λ cts. bring_all env cts ss >>= drop cts)
        (Does-call env env.on_list node list_containers tt)
        (λ cts q.
          Does->>= env Always Always (bring_all env cts ss) (drop cts) (bring_all-Does cts ss)
            (λ es p.
              Does->>= env Always Always (remove_orphans env node (select (is_orphan env ss) cts))
                (sweep es) (remove_orphans-Does node _ (orphans_owned ss cts))
                (λ fs o.
                  Does->>= env (Holds Always) Always (attempt (remove_stale_configs env node ss))
                    (close es fs)
                    (Does-attempt env Always (remove_stale_configs env node ss)
                      (stale-Does node ss))
                    (λ done n.
                      Does-lift env Always (join_errors (es ++ fs ++ error_of done))
                        (joined-Always (es ++ fs ++ error_of done))))))

  rebuild_node-Does : (node : ℕ) (ss : List Instance) → Does env Always (rebuild_node env node ss)
  unfolding rebuild_node
  rebuild_node-Does node ss =
      let close : List Error → M (Unit {0}) = λ es. lift (join_errors es) in
      let all_again : Unit {0} → M (Unit {0}) = λ v. deploy_all env ss >>= close in
      let sweep : Unit {0} → M (Unit {0}) = λ u. remove_stale_configs env node ss >>= all_again in
      Does->>= env Always Always (ask env env.on_list node list_containers)
        (λ cts. remove_owned env node cts >>= sweep)
        (Does-call env env.on_list node list_containers tt)
        (λ cts q.
          Does->>= env Always Always (remove_owned env node cts) sweep (remove_owned-Does node cts)
            (λ u p.
              Does->>= env Always Always (remove_stale_configs env node ss) all_again
                (stale-Does node ss)
                (λ v o.
                  Does->>= env Always Always (deploy_all env ss) close (deploy_all-Does ss)
                    (λ es n. Does-lift env Always (join_errors es) (joined-Always es)))))

  in_line-Does :
      (node : ℕ) (ss : List Instance) (pending : Bool)
      → Does env Always (in_line env node ss pending)
  in_line-Does node ss true = rebuild_node-Does node ss
  in_line-Does node ss false = reconcile-Does node ss

  state-Does : Does env Always state
  state-Does m = (Adds-none env m.log, tt)

  pub node_up-Does : (node : ℕ) → Does env Always (node_up env node)
  unfolding node_up take_rebuild
  node_up-Does node =
      let go : Manager → Bool → M (Unit {0}) =
        λ m pending. in_line env node (on_node node (all_instances m.db)) pending in
      let rest : M (Unit {0}) = state >>= λ m. take_rebuild node >>= go m in
      Does->> env Always (host_for env node) rest (host_for-Does env answers node) (
        Does->>= env Always Always state (λ m. take_rebuild node >>= go m) state-Does
          (λ m q.
            Does->>= env Always Always (take_rebuild node) (go m) (λ k. (Adds-none env k.log, tt))
              (λ pending p. in_line-Does node (on_node node (all_instances m.db)) pending)))

  forget_all-log : (ss : List Instance) (m : Manager) → (forget_all ss m).log ≡ m.log
  forget_all-log [] m = refl
  forget_all-log (s ∷ ss) m = forget_all-log ss (forget s.id m)

  pub remove_node-Does : (node : ℕ) → Does env Always (remove_node env node)
  unfolding remove_node
  remove_node-Does node =
      let clear : Manager → M (Unit {0}) =
        λ m. change (forget_all (on_node node (all_instances m.db))) in
      let after : Unit {0} → M (Unit {0}) = λ u. state >>= clear in
      let rest : List Container → M (Unit {0}) = λ cts. remove_owned env node cts >>= after in
      Does->> env Always (host_for env node) (ask env env.on_list node list_containers >>= rest)
        (host_for-Does env answers node)
        (Does->>= env Always Always (ask env env.on_list node list_containers) rest
          (Does-call env env.on_list node list_containers tt)
          (λ cts q.
            Does->>= env Always Always (remove_owned env node cts) after
              (remove_owned-Does node cts)
              (λ u p. Does->>= env Always Always state clear state-Does (λ m o.
                Does-change env (forget_all (on_node node (all_instances m.db)))
                  (forget_all-log (on_node node (all_instances m.db)))))))

  pub rebuild-Does : Does env Always (rebuild env)
  unfolding rebuild mark_rebuild
  rebuild-Does =
      Does->> env Always (change (mark_rebuild)) (node_up env 0)
        (Does-change env (mark_rebuild) (λ m. refl)) (node_up-Does 0)
