-- ===== src/Deploy/Ownership.antt =====
-- Which containers and files of a machine the manager of internal/deploy ever names.
pub mod Commands
pub mod Nodes
pub mod Watching
pub mod Histories
use tunploy.Common.{
  ℕ, zero, suc, ◌+◌, ◌-◌, ◌*◌, ◌/◌, ◌%◌, ◌^◌, ◌≤◌, ◌<◌, ◌≡◌, refl, sym, ap, ap₂, subst, ◌∙◌, ◌≢◌,
  ◌↔◌, ◌⊎◌, inl, inr, Bool, true, false, not, ◌&&◌, ◌||◌, Option, none, some, List, [], ◌∷◌, ◌++◌,
  map, append_assoc, append-nil, arith, ltb, leb, ◌==◌, if◌then◌else◌, ltb→lt, lt→ltb, leb→le,
  le→leb, ==_iff, ==_refl, tests, and_true, Bool-cases, Option-cases, is_some, length,
  length-append, replicate, is_empty, find, any, all, select, update_where, All, All-append,
  All-select, All-find, All-update_where, All-mono, mem, mem-append, eq_text, eq_text_refl,
  eq_text_sound, get_or, set, length-set, get_or-set_self,
}
use tunploy.Common.Path.{is_name}
use tunploy.Common.Text.{Text, codes}
use tunploy.Apperr.{Result, ok, err, Error}
use tunploy.Deploy.{
  Container, Spec, Call, list_containers, inspect_container, remove_container, start_container,
  stop_container, read_logs, create_container, exec, image_exists, build_image, write_file,
  remove_all, read_dir, CallLog, Manager, Env, M, ◌>>=◌, ◌>>◌, pure, fail, lift, state, change, ask,
  tell, run_next,
}
use tunploy.Deploy.Containers.{attempt}

-- A name with the panel's prefix.
abbrev pub IsPrefixed : Env → Text → Type 0
IsPrefixed env name = (rest : Text) × (name ≡ env.prefix ++ rest)

-- A path to one of the servers' directories or below it. Each part is a name, so none leads back up.
abbrev pub IsInside : List Text → Type 0
IsInside path =
    (dir : Text) × (rest : List Text) × (path ≡ codes "wireguard" ∷ dir ∷ rest)
    × All (λ part. is_name part ≡ true) (dir ∷ rest)

-- A call that names only containers of the panel and only files of its servers.
abbrev pub IsOwn : Env → Call → Type 0
IsOwn env list_containers = Unit {0}
IsOwn env (inspect_container name) = IsPrefixed env name
IsOwn env (remove_container name) = IsPrefixed env name
IsOwn env (start_container name) = IsPrefixed env name
IsOwn env (stop_container name) = IsPrefixed env name
IsOwn env (read_logs name) = IsPrefixed env name
IsOwn env (create_container spec) = IsPrefixed env spec.name
IsOwn env (exec name command) = IsPrefixed env name
IsOwn env (image_exists image) = image ≡ env.image
IsOwn env (build_image image) = image ≡ env.image
IsOwn env (write_file path contents) = IsInside path
IsOwn env (remove_all path) = IsInside path
IsOwn env (read_dir path) = path ≡ codes "wireguard" ∷ []

-- What a result that is no error has to be.
abbrev pub Holds {ℓ} : {A : Type ℓ} → (A → Type 0) → Result A → Type 0
Holds Q (ok a) = Q a
Holds Q (err e) = Unit

abbrev pub Always {ℓ} : {A : Type ℓ} → A → Type 0
Always a = Unit

module _ (env : Env) where
  -- The calls that a step adds to the log.
  abbrev pub Adds : CallLog → CallLog → Type 0
  Adds before after =
      (new : CallLog) × (after ≡ before ++ new) × All (λ (c : ℕ × Call). IsOwn env c.1) new

  pub Adds-none : (l : CallLog) → Adds l l
  Adds-none l = ([], sym (append-nil l), tt)

  pub Adds-trans : (l k j : CallLog) → Adds l k → Adds k j → Adds l j
  Adds-trans l k j (new, e, h) (more, d, g) = (
    new ++ more,
    d ∙ ap (λ x. x ++ more) e ∙ append_assoc l new more,
    All-append (λ (c : ℕ × Call). IsOwn env c.1) new more h g,
  )

  -- A step makes calls of that kind only, and what it results in has a property.
  abbrev pub Does {ℓ} : {A : Type ℓ} → (A → Type 0) → M A → Type 0
  Does Q act = (m : Manager) → Adds m.log (act m).1.log × Holds Q (act m).0

  pub Does-pure {ℓ} : {A : Type ℓ} (Q : A → Type 0) (a : A) → Q a → Does Q (pure a)
  Does-pure Q a q m = (Adds-none m.log, q)

  pub Does-fail {ℓ} : {A : Type ℓ} (Q : A → Type 0) (e : Error) → Does Q (fail e)
  Does-fail Q e m = (Adds-none m.log, tt)

  pub Does-lift {ℓ} : {A : Type ℓ} (Q : A → Type 0) (r : Result A) → Holds Q r → Does Q (lift r)
  Does-lift Q r h m = (Adds-none m.log, h)

  pub Does-change :
      (f : Manager → Manager) → ((m : Manager) → (f m).log ≡ m.log) → Does Always (change f)
  Does-change f h m = (rw (h m) (Adds-none m.log), tt)

  run_next-Does {ℓ κ} :
      {A : Type ℓ} {B : Type κ} (Q : A → Type 0) (R : B → Type 0)
      → (next : A → M B) → ((a : A) → Q a → Does R (next a))
      → (l : CallLog) (p : Result A × Manager) → Adds l p.1.log
      → Holds Q p.0
      → Adds l (run_next p next).1.log × Holds R (run_next p next).0
  run_next-Does Q R next g l (err e, m) added q = (added, tt)
  run_next-Does Q R next g l (ok a, m) added q =
      let (more, r) = g a q m in (Adds-trans l m.log (next a m).1.log added more, r)

  pub Does->>= {ℓ κ} :
      {A : Type ℓ} {B : Type κ} (Q : A → Type 0) (R : B → Type 0)
      → (first : M A) (next : A → M B) → Does Q first
      → ((a : A) → Q a → Does R (next a))
      → Does R (first >>= next)
  Does->>= Q R first next f g m =
      let (added, q) = f m in run_next-Does Q R next g m.log (first m) added q

  pub Does->> {κ} :
      {B : Type κ} (R : B → Type 0) (first : M (Unit {0})) (last : M B)
      → Does Always first
      → Does R last
      → Does R (first >> last)
  Does->> R first last f g = Does->>= Always R first (λ _. last) f (λ a q. g)

  pub Does-ask {ℓ} :
      {A : Type ℓ} (Q : A → Type 0) (answer : CallLog → Result A) (node : ℕ) (call : Call)
      → IsOwn env call
      → ((l : CallLog) → Holds Q (answer (l ++ (node, call) ∷ [])))
      → Does Q (ask env answer node call)
  Does-ask Q answer node call own h m = (((node, call) ∷ [], refl, (own, tt)), h m.log)

  Holds-Always {ℓ} : {A : Type ℓ} (r : Result A) → Holds Always r
  Holds-Always (ok a) = tt
  Holds-Always (err e) = tt

  pub Does-call {ℓ} :
      {A : Type ℓ} (answer : CallLog → Result A) (node : ℕ) (call : Call)
      → IsOwn env call
      → Does Always (ask env answer node call)
  Does-call answer node call own =
      Does-ask Always answer node call own (λ l. Holds-Always (answer (l ++ (node, call) ∷ [])))

  -- An error becomes a value, of which nothing is known.
  pub Does-attempt {ℓ} :
      {A : Type ℓ} (Q : A → Type 0) (act : M A) → Does Q act → Does (Holds Q) (attempt act)
  Does-attempt Q act f m = f m

  pub Does-if {ℓ} :
      {A : Type ℓ} (Q : A → Type 0) (b : Bool) (act other : M A)
      → Does Q act
      → Does Q other
      → Does Q (if b then act else other)
  Does-if Q true act other f g = f
  Does-if Q false act other f g = g

  pub Does-forgets {ℓ} : {A : Type ℓ} (Q : A → Type 0) (act : M A) → Does Q act → Does Always act
  Does-forgets Q act f m = ((f m).0, Holds-Always (act m).0)
