-- ===== src/Devices/Endings.antt =====
-- How a command on a device can end.
use tunploy.Common.{ℕ, ◌⊎◌, inl, inr, ◌≡◌, refl, ap, Option, none, some, [], ◌∷◌, ◌++◌}
use tunploy.Apperr.{Result, ok, err, Error, ◌>>=◌, ◌>>◌}
use tunploy.Devices.{
  World, Env, Outcome, done, saved, failed, answer, outcome, apply_error, on_error,
}

module _ (env : Env) where
  -- The tunnel of one server was asked to update, after a save that left this world.
  abbrev pub Asked : World → World → World → ℕ → Option Error → Type 0
  Asked w v w' id answered =
      (v.applied ≡ w.applied)
      × (env.tunnel v id ≡ answered)
      × (w' ≡ record v { applied = w.applied ++ id ∷ [] })

  -- A command on a server's device, from one world to the next. One that fails changes nothing and
  -- says why; one that is saved leaves what a save has to.
  abbrev pub EndsWell {ℓ} :
      {A : Type ℓ} (Fails : Error → Type 0) (Saves : A → World → Type 0)
      → World
      → ℕ
      → Outcome A × World
      → Type 0
  EndsWell Fails Saves w id (failed e, w') = (w' ≡ w) × Fails e
  EndsWell Fails Saves w id (done a, w') = (v : World) × Saves a v × Asked w v w' id none
  EndsWell Fails Saves w id (saved a e, w') =
      (v : World) × Saves a v × ((d : Error) × Asked w v w' id (some d) × (e ≡ apply_error d))

  outcome-EndsWell {ℓ} :
      {A : Type ℓ} (Fails : Error → Type 0) (Saves : A → World → Type 0) (w v : World) (id : ℕ)
      (a : A) (o : Option Error)
      → v.applied ≡ w.applied
      → Saves a v
      → env.tunnel v id ≡ o
      → EndsWell Fails Saves w id (outcome env a (o, record v { applied = v.applied ++ id ∷ [] }))
  outcome-EndsWell Fails Saves w v id a none h k e =
      (v, k, (h, e, ap (λ ids. record v { applied = ids ++ id ∷ [] }) h))
  outcome-EndsWell Fails Saves w v id a (some d) h k e =
      (v, k, (d, (h, e, ap (λ ids. record v { applied = ids ++ id ∷ [] }) h), refl))

  pub answer-EndsWell {ℓ} :
      {A : Type ℓ} (Fails : Error → Type 0) (Saves : A → World → Type 0) (w : World) (id : ℕ)
      (r : Result (A × World))
      → ((e : Error) → r ≡ err e → Fails e)
      → ((a : A) (v : World) → r ≡ ok (a, v) → (v.applied ≡ w.applied) × Saves a v)
      → EndsWell Fails Saves w id (answer env id w r)
  answer-EndsWell Fails Saves w id (err e) f h = (refl, f e refl)
  answer-EndsWell Fails Saves w id (ok (a, v)) f h =
      outcome-EndsWell Fails Saves w v id a (env.tunnel v id) (h a v refl).0 (h a v refl).1 refl

-- A command that passes a check, asks the store and then records what was saved: why it fails, and
-- what it leaves.
pub check_fails {ℓ κ} :
    {A : Type ℓ} {B : Type κ} (check : Result (Unit {0})) (rewrite : Error → Error)
    (query : Result B) (next : B → A) (e : Error)
    → (check >> (on_error rewrite query >>= λ b. ok (next b))) ≡ err e
    → (check ≡ err e) ⊎ ((d : Error) × (query ≡ err d) × (e ≡ rewrite d))
check_fails (err d) rewrite query next e h = inl (cc)
check_fails (ok u) rewrite (err d) next e h = inr (d, refl, cc)
check_fails (ok u) rewrite (ok b) next e h = absurd (cc)

pub check_saves {ℓ κ} :
    {A : Type ℓ} {B : Type κ} (check : Result (Unit {0})) (rewrite : Error → Error)
    (query : Result B) (next : B → A) (a : A)
    → (check >> (on_error rewrite query >>= λ b. ok (next b))) ≡ ok a
    → (check ≡ ok tt) × ((b : B) × (query ≡ ok b) × (next b ≡ a))
check_saves (err d) rewrite query next a h = absurd (cc)
check_saves (ok u) rewrite (err d) next a h = absurd (cc)
check_saves (ok u) rewrite (ok b) next a h = (refl, (b, refl, cc))

-- Why a command on a device can fail: a field, or the store.
abbrev pub Refused : {B : Type 0} → Result (Unit {0}) → Result B → (Error → Error) → Error → Type 0
Refused check query rewrite e = (check ≡ err e) ⊎ ((d : Error) × (query ≡ err d) × (e ≡ rewrite d))

pub ok_world {ℓ} : {A : Type ℓ} {x y : A × World} → ok x ≡ ok y → x ≡ y
ok_world e = cc

-- What a query that fails makes a command fail with.
pub query_fails {ℓ κ} :
    {A : Type ℓ} {B : Type κ} (query : Result B) (next : B → A) (e : Error)
    → (query >>= λ b. ok (next b)) ≡ err e
    → (◌≡◌ {A = Result (Unit {0})} (ok tt) (err e)) ⊎ ((d : Error) × (query ≡ err d) × (e ≡ d))
query_fails (err d) next e h = inr (d, refl, cc)
query_fails (ok b) next e h = absurd (cc)
