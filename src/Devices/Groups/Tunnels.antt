-- ===== src/Devices/Groups/Tunnels.antt =====
-- A group's command updates each tunnel that it touched once, also when a save failed partway.
use tunploy.Common.{
  ℕ, suc, ◌≡◌, refl, sym, ap, subst, ◌∙◌, true, false, Option, none, some, List, [], ◌∷◌, ◌++◌, map,
  append_assoc, append-nil, arith, length, All, mem, mem-append,
}
use tunploy.Store.Peers.{or_missing}
use tunploy.Apperr.{>>=-eq-ok, Result, ok, err, Error}
use tunploy.Wg.Model.{Instance, Peer}
use tunploy.Store.Tables.{Db, instance_by_id}
use tunploy.Store.Servers.{load_instance}
use tunploy.Devices.{World, Env}
use tunploy.Devices.Groups.{
  Job, server_of, Progress, save_each, put_first, kept as kept_first, apply_all, conclude, each,
}

abbrev ids_of : List Instance → List ℕ
ids_of ss = map (λ (s : Instance). s.id) ss

abbrev AllDistinct : List ℕ → Type 0
AllDistinct [] = Unit
AllDistinct (i ∷ is) = (mem i is ≡ false) × AllDistinct is

AllDistinct-append :
    (is : List ℕ) (j : ℕ) → AllDistinct is → mem j is ≡ false → AllDistinct (is ++ j ∷ [])
AllDistinct-append [] j h k = (refl, tt)
AllDistinct-append (i ∷ is) j h k =
    (ground (arith, mem-append i is (j ∷ [])), AllDistinct-append is j h.1 (ground arith))

apply_all-applied :
    (env : Env) (ids : List ℕ) (w : World) → (apply_all env ids w).1.applied ≡ w.applied ++ ids
unfolding apply_all
apply_all-applied env [] w = sym (append-nil w.applied)
apply_all-applied env (id ∷ ids) w =
    apply_all-applied env ids (record w { applied = w.applied ++ id ∷ [] })
    ∙ append_assoc w.applied (id ∷ []) ids

-- A save leaves the tunnels alone.
abbrev pub IsQuiet : Job → Type 0
IsQuiet (id, job) =
    (s : Instance) (w v : World) (p : Option Peer) → job s w ≡ ok (p, v) → v.applied ≡ w.applied

-- Some first devices were saved one after another: their servers' IDs, and the world after.
pub data Runs : List Job → World → List ℕ → World → Type 0 where
  stopped : {jobs : List Job} {w : World} → Runs jobs w [] w
  ran :
      {id : ℕ} {job : Instance → World → Result (Option Peer × World)} {jobs : List Job}
      {w v u : World} {ids : List ℕ} (s : Instance) (p : Option Peer)
      → job s w ≡ ok (p, v)
      → Runs jobs v ids u
      → Runs ((id, job) ∷ jobs) w (id ∷ ids) u

found_by_id :
    (ss : List Instance) (id : ℕ) (s : Instance)
    → instance_by_id ss id ≡ some s
    → mem id (ids_of ss) ≡ true
found_by_id [] id s h = absurd (cc)
found_by_id (q ∷ ss) id s h = ground (arith, found_by_id ss id s)

not_by_id : (ss : List Instance) (id : ℕ) → instance_by_id ss id ≡ none → mem id (ids_of ss) ≡ false
not_by_id [] id h = refl
not_by_id (q ∷ ss) id h = ground (arith, not_by_id ss id)

found_id : (ss : List Instance) (id : ℕ) (s : Instance) → instance_by_id ss id ≡ some s → s.id ≡ id
found_id [] id s h = absurd (cc)
found_id (q ∷ ss) id s h = ground (arith, found_id ss id s)

-- The servers met after one more: still distinct, this one among them, and none lost.
record Met (met met' : List Instance) (id : ℕ) : Type 0 where
  distinct : AllDistinct (ids_of met')
  here : mem id (ids_of met') ≡ true
  kept : (i : ℕ) → mem i (ids_of met) ≡ true → mem i (ids_of met') ≡ true

ids-append : (ss : List Instance) (s : Instance) → ids_of (ss ++ s ∷ []) ≡ ids_of ss ++ s.id ∷ []
ids-append [] s = refl
ids-append (q ∷ ss) s = ap (λ is. q.id ∷ is) (ids-append ss s)

Met-new :
    (met : List Instance) (s : Instance) (id : ℕ)
    → AllDistinct (ids_of met)
    → s.id ≡ id
    → mem id (ids_of met) ≡ false
    → Met met (met ++ s ∷ []) id
Met-new met s id d e n = record {
  distinct = rw (ids-append met s, e) (AllDistinct-append (ids_of met) id d n);
  here = rw (ids-append met s, e, mem-append id (ids_of met) (id ∷ [])) (ground arith);
  kept = λ i h. rw (ids-append met s, e, mem-append i (ids_of met) (id ∷ [])) (ground arith);
}

known_of : (o : Option Instance) (s : Instance) → or_missing o ≡ ok s → o ≡ some s
known_of none s e = absurd (cc)
known_of (some q) s e = cc

found_server :
    (met : List Instance) (id : ℕ) (db : Db) (s : Instance) (met' : List Instance)
    (o : Option Instance)
    → AllDistinct (ids_of met)
    → instance_by_id met id ≡ o
    → server_of met id db o ≡ ok (s, met')
    → Met met met' id
found_server met id db s met' (some q) d o e =
    let same : met ≡ met' = cc in
    subst (λ m. Met met m id) same
      (record { distinct = d; here = found_by_id met id q o; kept = λ i h. h })
found_server met id db s met' none d o e =
    let (q, loaded, same) = >>=-eq-ok (load_instance db id) (λ q. ok (q, met ++ q ∷ [])) e in
    let known : instance_by_id db.instances id ≡ some q =
      known_of (instance_by_id db.instances id) q loaded in
    let eq : met ++ q ∷ [] ≡ met' = cc in
    subst (λ m. Met met m id) eq
      (Met-new met q id d (found_id db.instances id q known) (not_by_id met id o))

-- The loop over the devices, from the servers met before.
record LoopsWell (met : List Instance) (jobs : List Job) (w : World) (g : Progress) : Type 0 where
  ids : List ℕ
  runs : Runs jobs w ids g.world
  quiet : g.world.applied ≡ w.applied
  distinct : AllDistinct (ids_of g.met)
  touched : All (λ i. mem i (ids_of g.met) ≡ true) ids
  kept : (i : ℕ) → mem i (ids_of met) ≡ true → mem i (ids_of g.met) ≡ true
  complete : (ps : List Peer) → g.result ≡ ok ps → length ids ≡ length jobs

save_each-LoopsWell :
    (met : List Instance) (jobs : List Job) (w : World)
    → All IsQuiet jobs
    → AllDistinct (ids_of met)
    → LoopsWell met jobs w (save_each met jobs w)
unfolding save_each
save_each-LoopsWell met [] w h d = record {
  ids = [];
  runs = stopped;
  quiet = refl;
  distinct = d;
  touched = tt;
  kept = λ i k. k;
  complete = λ ps e. refl;
}
save_each-LoopsWell met ((id, job) ∷ jobs) w h d =
    at_server (λ f v k. save_each-LoopsWell f.1 jobs v h.1 k)
      (server_of met id w.db (instance_by_id met id)) refl
  where
    Rest : Result (Instance × List Instance) → Progress
    Rest found = elim found [
      | err e ↦ record { met = met; result = err e; world = w }
      | ok f ↦ elim (job f.0 w) [
        | err e ↦ record { met = f.1; result = err e; world = w }
        | ok saved ↦ put_first saved.0 (save_each f.1 jobs saved.1)
      ]
    ]

    After : (f : Instance × List Instance) → Result (Option Peer × World) → Progress
    After f r = elim r [
      | err e ↦ record { met = f.1; result = err e; world = w }
      | ok saved ↦ put_first saved.0 (save_each f.1 jobs saved.1)
    ]

    at_job :
        ((f : Instance × List Instance) (v : World)
          → AllDistinct (ids_of f.1)
          → LoopsWell f.1 jobs v (save_each f.1 jobs v))
        → (f : Instance × List Instance) (r : Result (Option Peer × World)) → Met met f.1 id
        → job f.0 w ≡ r
        → LoopsWell met ((id, job) ∷ jobs) w (After f r)
    at_job ih f (err e) m q = record {
      ids = [];
      runs = stopped;
      quiet = refl;
      distinct = m.distinct;
      touched = tt;
      kept = m.kept;
      complete = λ ps k. absurd (cc);
    }
    at_job ih f (ok (p, v)) m q =
        let rest = ih f v m.distinct in
        record {
          ids = id ∷ rest.ids;
          runs = ran f.0 p q rest.runs;
          quiet = rest.quiet ∙ h.0 f.0 w v p q;
          distinct = rest.distinct;
          touched = (rest.kept id m.here, rest.touched);
          kept = λ i k. rest.kept i (m.kept i k);
          complete = λ ps k.
              let (qs, e, same) =
                >>=-eq-ok (save_each f.1 jobs v).result (λ qs. ok (kept_first p qs)) k in
              ap suc (rest.complete qs e);
        }

    at_server :
        ((f : Instance × List Instance) (v : World)
          → AllDistinct (ids_of f.1)
          → LoopsWell f.1 jobs v (save_each f.1 jobs v))
        → (found : Result (Instance × List Instance))
        → server_of met id w.db (instance_by_id met id) ≡ found
        → LoopsWell met ((id, job) ∷ jobs) w (Rest found)
    at_server ih (err e) q = record {
      ids = [];
      runs = stopped;
      quiet = refl;
      distinct = d;
      touched = tt;
      kept = λ i k. k;
      complete = λ ps k. absurd (cc);
    }
    at_server ih (ok f) q =
        at_job ih f (job f.0 w) (found_server met id w.db f.0 f.1 (instance_by_id met id) d refl q)
          refl

-- The answer of a group's command.
pub record Concludes (jobs : List Job) (w : World) (out : Result (List Peer) × World) : Type 0 where
  pub ids : List ℕ
  pub touched : List ℕ
  pub saved : World
  pub runs : Runs jobs w ids saved
  pub store : out.1.db ≡ saved.db
  pub applied : out.1.applied ≡ w.applied ++ touched
  pub once : AllDistinct touched
  pub covers : All (λ i. mem i touched ≡ true) ids
  pub complete : (ps : List Peer) → out.0 ≡ ok ps → length ids ≡ length jobs

apply_all-db : (env : Env) (ids : List ℕ) (w : World) → (apply_all env ids w).1.db ≡ w.db
unfolding apply_all
apply_all-db env [] w = refl
apply_all-db env (id ∷ ids) w = apply_all-db env ids (record w { applied = w.applied ++ id ∷ [] })

conclude-world :
    (env : Env) (r : Result (List Peer)) (a : Option Error × World) → (conclude env r a).1 ≡ a.1
conclude-world env (err e) (d, w) = refl
conclude-world env (ok ps) (some d, w) = refl
conclude-world env (ok ps) (none, w) = refl

conclude-ok :
    (env : Env) (r : Result (List Peer)) (a : Option Error × World) (ps : List Peer)
    → (conclude env r a).0 ≡ ok ps
    → r ≡ ok ps
conclude-ok env (err e) (d, w) ps h = absurd (cc)
conclude-ok env (ok qs) (some d, w) ps h = absurd (cc)
conclude-ok env (ok qs) (none, w) ps h = h

-- A change to many devices, each of whose saves leaves the tunnels alone: some first of them are
-- saved, one after another, and the store stays as the last of these left it, also when a later one
-- fails; all of them are when the command succeeds. The tunnel of each server that a saved device is
-- on is then asked to update, and no tunnel twice.
pub each-Concludes :
    (env : Env) (jobs : List Job) (w : World)
    → All IsQuiet jobs
    → Concludes jobs w (each env jobs w)
unfolding each
each-Concludes env jobs w h =
    let g = save_each [] jobs w in
    let loop = save_each-LoopsWell [] jobs w h tt in
    let calls = apply_all env (ids_of g.met) g.world in
    let world = conclude-world env g.result calls in
    record {
      ids = loop.ids;
      touched = ids_of g.met;
      saved = g.world;
      runs = loop.runs;
      store = ap (λ (v : World). v.db) world ∙ apply_all-db env (ids_of g.met) g.world;
      applied =
          ap (λ (v : World). v.applied) world
          ∙ apply_all-applied env (ids_of g.met) g.world
          ∙ ap (λ is. is ++ ids_of g.met) loop.quiet;
      once = loop.distinct;
      covers = loop.touched;
      complete = λ ps e. loop.complete ps (conclude-ok env g.result calls ps e);
    }
