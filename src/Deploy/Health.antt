-- ===== src/Deploy/Health.antt =====
-- The events that checkHealth of internal/deploy/watch.go records about one server.
use tunploy.Common.{
  ℕ, zero, suc, ◌≡◌, refl, sym, ap, ap₂, All-append, subst, ◌∙◌, ◌||◌, ◌&&◌, map, All, eq_text,
  eq_text_sound, inl, inr, Bool, true, false, not, Option, none, some, List, [], ◌∷◌, ◌++◌,
  append_assoc, append-nil, if◌then◌else◌, Bool-cases,
}
use tunploy.Common.Text.{Text, codes}
use tunploy.Common.Int.{pos, eqz}
use tunploy.Apperr.{Result, ok, err, no_container}
use tunploy.Wg.Model.{Instance}
use tunploy.Event.{Event}
use tunploy.Deploy.{Container, CallLog, inspect_container, container_name, Manager, Env, entry_of}
use tunploy.Deploy.Containers.{container, maybe}
use tunploy.Deploy.Watch.{is_down, health_event, note_health, check_health}
use tunploy.Deploy.Blocks.{entry_of-put}

abbrev pub check_often : Env → Instance → ℕ → Manager → Manager
check_often env s zero m = m
check_often env s (suc n) m = check_often env s n (check_health env s m).1

-- A container that is not well: it keeps exiting, or it ended with an error.
abbrev pub is_broken : Container → Bool
is_broken ct =
    eq_text ct.state (codes "restarting")
    || (eq_text ct.state (codes "exited") && not (eqz ct.exit_code (pos 0)))

-- What an answer to an inspection says: whether the server is down, if anything. A server without a
-- container is not down.
abbrev pub reading : Result Container → Option Bool
reading (ok ct) = some (is_broken ct)
reading (err no_container) = some false
reading (err e) = none

-- The log after one more inspection of a server's container, and what that many of them say.
abbrev pub asked : Env → Instance → CallLog → CallLog
asked env s l = l ++ (s.node_id, inspect_container (container_name env s.id)) ∷ []

abbrev pub readings : Env → Instance → ℕ → CallLog → List (Option Bool)
readings env s zero l = []
readings env s (suc n) l =
    reading (env.on_inspect (asked env s l)) ∷ readings env s n (asked env s l)

-- The health after some readings, and the reports that go with them.
abbrev pub health_after : Bool → List (Option Bool) → Bool
health_after down [] = down
health_after down (none ∷ rs) = health_after down rs
health_after down (some b ∷ rs) = health_after b rs

abbrev pub reports_for : Bool → List (Option Bool) → List Text
reports_for down [] = []
reports_for down (none ∷ rs) = reports_for down rs
reports_for true (some true ∷ rs) = reports_for true rs
reports_for true (some false ∷ rs) = codes "server.recovered" ∷ reports_for false rs
reports_for false (some true ∷ rs) = codes "server.down" ∷ reports_for true rs
reports_for false (some false ∷ rs) = reports_for false rs

reports-cons :
    (down : Bool) (r : Option Bool) (rs : List (Option Bool))
    → reports_for down (r ∷ rs)
      ≡ reports_for down (r ∷ []) ++ reports_for (health_after down (r ∷ [])) rs
reports-cons down none rs = refl
reports-cons true (some true) rs = refl
reports-cons true (some false) rs = refl
reports-cons false (some true) rs = refl
reports-cons false (some false) rs = refl

health-cons :
    (down : Bool) (r : Option Bool) (rs : List (Option Bool))
    → health_after (health_after down (r ∷ [])) rs ≡ health_after down (r ∷ rs)
health-cons down none rs = refl
health-cons down (some b) rs = refl

is_down-broken : (ct : Container) → is_down (some ct) ≡ is_broken ct
is_down-broken ct = elim (Bool-cases (eq_text ct.state (codes "running"))) [
  | inl up ↦
      let same : ct.state ≡ codes "running" = eq_text_sound ct.state (codes "running") up in
      rw same refl
  | inr other ↦ elim (Bool-cases (eq_text ct.state (codes "restarting"))) [
    | inl again ↦ rw (other, again) refl
    | inr ended ↦ elim (Bool-cases (eq_text ct.state (codes "exited"))) [
      | inl exited ↦ elim (Bool-cases (eqz ct.exit_code (pos 0))) [
        | inl well ↦ rw (other, ended, exited, well) refl
        | inr ill ↦ rw (other, ended, exited, ill) refl
      ]
      | inr alive ↦ rw (other, ended, alive) refl
    ]
  ]
]

-- The answer to an inspection, as checkHealth takes it.
abbrev found : Result Container → Result (Option Container)
found (ok ct) = ok (some ct)
found (err no_container) = ok none
found (err e) = err e

maybe-found : (r : Result Container) (m : Manager) → maybe r m ≡ (found r, m)
maybe-found (ok ct) m = refl
maybe-found (err no_container) m = refl
maybe-found (err e) m = refl

check_health-notes :
    (env : Env) (s : Instance) (m : Manager)
    → (check_health env s m).1
      ≡ note_health s
          (found (env.on_inspect (asked env s m.log)))
          (record m { log = asked env s m.log })
unfolding check_health container
check_health-notes env s m =
    rw (maybe-found (env.on_inspect (asked env s m.log)) (record m { log = asked env s m.log }))
      refl

-- What one check leaves behind.
abbrev Checked : Instance → Bool → Option Bool → Manager → Manager → Type 0
Checked s down r m m' =
    (new : List Event) × (m'.events ≡ m.events ++ new)
    × (map (λ (e : Event). e.kind) new ≡ reports_for down (r ∷ []))
    × All (λ (e : Event). e.instance_id ≡ s.id) new
    × (entry_of m'.down s.id ≡ some (health_after down (r ∷ [])))
    × (m'.log ≡ m.log)

noted-Checked :
    (s : Instance) (ct : Option Container) (m : Manager) (down now : Bool)
    → entry_of m.down s.id ≡ some down
    → is_down ct ≡ now
    → Checked s down (some now) m (note_health s (ok ct) m)
noted-Checked s ct m true true h e = (
  [],
  rw (h, e) (sym (append-nil m.events)),
  refl,
  tt,
  entry_of-put m.down s.id (is_down ct) ∙ ap some e,
  refl,
)
noted-Checked s ct m false false h e = (
  [],
  rw (h, e) (sym (append-nil m.events)),
  refl,
  tt,
  entry_of-put m.down s.id (is_down ct) ∙ ap some e,
  refl,
)
noted-Checked s ct m true false h e = (
  health_event s m.nodes ct ∷ [],
  rw (h, e) refl,
  ap (λ b. codes (if b then "server.down" else "server.recovered") ∷ []) e,
  (refl, tt),
  entry_of-put m.down s.id (is_down ct) ∙ ap some e,
  refl,
)
noted-Checked s ct m false true h e = (
  health_event s m.nodes ct ∷ [],
  rw (h, e) refl,
  ap (λ b. codes (if b then "server.down" else "server.recovered") ∷ []) e,
  (refl, tt),
  entry_of-put m.down s.id (is_down ct) ∙ ap some e,
  refl,
)

note_health-Checked :
    (s : Instance) (r : Result Container) (m : Manager) (down : Bool)
    → entry_of m.down s.id ≡ some down
    → Checked s down (reading r) m (note_health s (found r) m)
note_health-Checked s (ok ct) m down h =
    noted-Checked s (some ct) m down (is_broken ct) h (is_down-broken ct)
note_health-Checked s (err no_container) m down h = noted-Checked s none m down false h refl
note_health-Checked s (err e) m down h = ([], sym (append-nil m.events), refl, tt, h, refl)

kinds_append :
    (es fs : List Event)
    → map (λ (e : Event). e.kind) (es ++ fs)
      ≡ map (λ (e : Event). e.kind) es ++ map (λ (e : Event). e.kind) fs
kinds_append [] fs = refl
kinds_append (e ∷ es) fs = ap (λ ks. e.kind ∷ ks) (kinds_append es fs)

-- Once a server's health is known, any number of checks leave the health that the machine's last
-- telling answer says, and report it exactly when it turns over: the container keeps exiting or ended
-- with an error, or it does not, and a server without one is not down. An answer that is an error
-- says nothing. All reports are about the server.
pub check_often-reports :
    (env : Env) (s : Instance) (n : ℕ) (m : Manager) (down : Bool)
    → entry_of m.down s.id ≡ some down
    → (new : List Event) × ((check_often env s n m).events ≡ m.events ++ new)
      × (map (λ (e : Event). e.kind) new ≡ reports_for down (readings env s n m.log))
      × All (λ (e : Event). e.instance_id ≡ s.id) new
      × (entry_of (check_often env s n m).down s.id
          ≡ some (health_after down (readings env s n m.log)))
check_often-reports env s zero m down h = ([], sym (append-nil m.events), refl, tt, h)
check_often-reports env s (suc n) m down h =
    let l : CallLog = asked env s m.log in
    let r : Result Container = env.on_inspect l in
    let m1 : Manager = (check_health env s m).1 in
    let mid : Bool = health_after down (reading r ∷ []) in
    let (new, events, kinds, own, known, log) =
      subst (Checked s down (reading r) (record m { log = l })) (sym (check_health-notes env s m))
        (note_health-Checked s r (record m { log = l }) down h) in
    let (more, events', kinds', own', known') = check_often-reports env s n m1 mid known in
    let rs : List (Option Bool) = readings env s n l in
    let same : readings env s n m1.log ≡ rs = ap (readings env s n) log in
    (
      new ++ more,
      events' ∙ ap (λ es. es ++ more) events ∙ append_assoc m.events new more,
      kinds_append new more
          ∙ ap₂ (λ a b. a ++ b) kinds (kinds' ∙ ap (reports_for mid) same)
          ∙ sym (reports-cons down (reading r) rs),
      All-append (λ (e : Event). e.instance_id ≡ s.id) new more own own',
      known'
          ∙ ap (λ rs. some (health_after mid rs)) same
          ∙ ap some (health-cons down (reading r) rs),
    )
