-- ===== src/Auth/Throttle/Lockout.antt =====
-- What other keys, and further checks, do to a key that has failed.
use tunploy.Common.{
  ℕ, suc, ◌+◌, ◌-◌, ◌≤◌, ◌<◌, ◌≡◌, refl, sym, ap, subst, ◌∙◌, inl, inr, Bool, true, false, Option,
  none, some, List, [], ◌∷◌, arith, leb, if◌then◌else◌, ltb→lt, Bool-cases, All, eq_text,
  eq_text_sound,
}
use tunploy.Common.Text.{Text}
use tunploy.Auth.Throttle.{
  Entry, Throttle, entry_for, is_past, allowed_by, allowed, prune, fail, reset,
}
use tunploy.Auth.Throttle.Entries.{
  entry-drop, entry-put, entry-put_self, entry-prune, select-none, drop-none,
}

-- What happens to a throttle: a check, a failure or a success of a key.
pub data Step : Type 0 where
  check failure : Text → ℕ → Step
  success : Text → Step

abbrev step : Throttle → Step → Throttle
step t (check key now) = (allowed t key now).1
step t (failure key now) = fail t key now
step t (success key) = reset t key

abbrev pub steps : Throttle → List Step → Throttle
steps t [] = t
steps t (s ∷ ss) = steps (step t s) ss

-- A step that records nothing about the key, and that comes before the time of its entry is up, if
-- it has one.
abbrev pub Spares : Text → Option Entry → Step → Type 0
Spares key none (check other now) = Unit
Spares key none (failure other now) = eq_text key other ≡ false
Spares key none (success other) = Unit
Spares key (some e) (check other now) = now ≤ e.reset_at
Spares key (some e) (failure other now) = (eq_text key other ≡ false) × (now ≤ e.reset_at)
Spares key (some e) (success other) = eq_text key other ≡ false

-- The entry that a key has.
abbrev pub Has : Text → Entry → Throttle → Type 0
Has key e t = entry_for key t.entries ≡ some e

abbrev reset_of : Entry → Option Entry → ℕ
reset_of e none = e.reset_at
reset_of e (some x) = x.reset_at

allowed_by-limits :
    (t : Throttle) (key : Text) (now : ℕ) (o : Option Entry)
    → ((allowed_by t key now o).1.max ≡ t.max) × ((allowed_by t key now o).1.window ≡ t.window)
allowed_by-limits t key now none = (refl, refl)
allowed_by-limits t key now (some x) = elim (Bool-cases (is_past now x)) [
  | inl past ↦ rw past (refl, refl)
  | inr live ↦ elim (Bool-cases (leb t.max x.failures)) [
    | inl out ↦ rw (live, out) (refl, refl)
    | inr fine ↦ rw (live, fine) (refl, refl)
  ]
]

allowed-Has :
    (t : Throttle) (key other : Text) (now : ℕ) (e : Entry) (o : Option Entry)
    → entry_for other t.entries ≡ o
    → now ≤ e.reset_at
    → Has key e t
    → Has key e (allowed_by t other now o).1
allowed-Has t key other now e none f soon h = h
allowed-Has t key other now e (some x) f soon h = elim (Bool-cases (is_past now x)) [
  | inr live ↦ elim (Bool-cases (leb t.max x.failures)) [
    | inl out ↦ rw (live, out) h
    | inr fine ↦ rw (live, fine) h
  ]
  | inl past ↦ elim (Bool-cases (eq_text key other)) [
    | inr differs ↦ rw past (entry-drop key other t.entries differs ∙ h)
    | inl same ↦
        let k : key ≡ other = eq_text_sound key other same in
        let q : entry_for key t.entries ≡ some x =
          subst (λ k. entry_for k t.entries ≡ some x) (sym k) f in
        let own : some x ≡ some e = sym q ∙ h in
        absurd (omega (arith, ap (reset_of e) own, ltb→lt x.reset_at now past))
  ]
]

step-Has :
    (key : Text) (e : Entry) (t : Throttle) (s : Step)
    → Spares key (some e) s
    → Has key e t
    → (Has key e (step t s)) × ((step t s).max ≡ t.max) × ((step t s).window ≡ t.window)
unfolding allowed fail reset
step-Has key e t (check other now) spares h = (
  allowed-Has t key other now e (entry_for other t.entries) refl spares h,
  (allowed_by-limits t other now (entry_for other t.entries)).0,
  (allowed_by-limits t other now (entry_for other t.entries)).1,
)
step-Has key e t (failure other now) spares h = (
  entry-put key other _ (prune now t.entries) spares.0
      ∙ entry-prune key e now t.entries h (ground arith),
  refl,
  refl,
)
step-Has key e t (success other) spares h = (entry-drop key other t.entries spares ∙ h, refl, refl)

steps-Has :
    (key : Text) (e : Entry) (t : Throttle) (ss : List Step)
    → All (Spares key (some e)) ss
    → Has key e t
    → (Has key e (steps t ss)) × ((steps t ss).max ≡ t.max) × ((steps t ss).window ≡ t.window)
steps-Has key e t [] spares h = (h, refl, refl)
steps-Has key e t (s ∷ ss) spares h =
    let (kept, max, window) = step-Has key e t s spares.0 h in
    let (kept', max', window') = steps-Has key e (step t s) ss spares.1 kept in
    (kept', max' ∙ max, window' ∙ window)

abbrev ap_first : (Bool × ℕ) × Throttle → Bool × ℕ
ap_first p = p.0

if-first :
    (b : Bool) (t : Throttle) (x y : Bool × ℕ)
    → ap_first (if b then (x, t) else (y, t)) ≡ (if b then x else y)
if-first true t x y = refl
if-first false t x y = refl

allowed-none :
    (t : Throttle) (key other : Text) (now : ℕ) (o : Option Entry)
    → entry_for key t.entries ≡ none
    → entry_for key (allowed_by t other now o).1.entries ≡ none
allowed-none t key other now none h = h
allowed-none t key other now (some x) h = elim (Bool-cases (is_past now x)) [
  | inl past ↦ rw past (select-none key _ t.entries h)
  | inr live ↦ elim (Bool-cases (leb t.max x.failures)) [
    | inl out ↦ rw (live, out) h
    | inr fine ↦ rw (live, fine) h
  ]
]

step-none :
    (key : Text) (t : Throttle) (s : Step)
    → Spares key none s
    → entry_for key t.entries ≡ none
    → (entry_for key (step t s).entries ≡ none) × ((step t s).window ≡ t.window)
unfolding allowed fail reset
step-none key t (check other now) spares h = (
  allowed-none t key other now (entry_for other t.entries) h,
  (allowed_by-limits t other now (entry_for other t.entries)).1,
)
step-none key t (failure other now) spares h =
    (entry-put key other _ (prune now t.entries) spares ∙ select-none key _ t.entries h, refl)
step-none key t (success other) spares h = (select-none key _ t.entries h, refl)

steps-none :
    (key : Text) (t : Throttle) (ss : List Step)
    → All (Spares key none) ss
    → entry_for key t.entries ≡ none
    → (entry_for key (steps t ss).entries ≡ none) × ((steps t ss).window ≡ t.window)
steps-none key t [] spares h = (h, refl)
steps-none key t (s ∷ ss) spares h =
    let (kept, window) = step-none key t s spares.0 h in
    let (kept', window') = steps-none key (step t s) ss spares.1 kept in (kept', window' ∙ window)

-- What a throttle answers and notes about a key, by the entry that the key had before.
abbrev pub Answers : Throttle → Text → ℕ → Option Entry → Throttle → Type 0
Answers t key later none u =
    ((allowed u key later).0 ≡ (true, 0))
    × Has key (record { failures = 1; reset_at = later + t.window }) (fail u key later)
Answers t key later (some e) u =
    (later ≤ e.reset_at
      → ((allowed u key later).0
          ≡ (if leb t.max e.failures then (false, e.reset_at - later) else (true, 0)))
        × Has key (record { failures = suc e.failures; reset_at = later + t.window })
            (fail u key later))
    × (e.reset_at < later → (allowed u key later).0 ≡ (true, 0))

lockout_none :
    (key : Text) (t : Throttle) (ss : List Step) (later : ℕ)
    → entry_for key t.entries ≡ none
    → All (Spares key none) ss
    → Answers t key later none (steps t ss)
unfolding allowed fail
lockout_none key t ss later h spares =
    let (kept, window) = steps-none key t ss spares h in
    (
      rw kept refl,
      entry-put_self key _ (prune later (steps t ss).entries)
          ∙ rw (select-none key _ (steps t ss).entries kept, window) refl,
    )

lockout_some :
    (key : Text) (e : Entry) (t : Throttle) (ss : List Step) (later : ℕ)
    → Has key e t
    → All (Spares key (some e)) ss
    → Answers t key later (some e) (steps t ss)
unfolding allowed fail
lockout_some key e t ss later h spares =
    let (kept, max, window) = steps-Has key e t ss spares h in
    (
      (λ soon.
          let live : is_past later e ≡ false = ground arith in
          (
            rw (kept, live, max)
                (if-first (leb t.max e.failures) (steps t ss) (false, e.reset_at - later)
                  (true, 0)),
            entry-put_self key _ (prune later (steps t ss).entries)
                ∙ rw (entry-prune key e later (steps t ss).entries kept live, live, window) refl,
          )),
      (λ late. let past : is_past later e ≡ true = ground arith in rw (kept, past) refl),
    )

-- What a key's failures so far mean does not depend on what happens to other keys, nor on checks,
-- before its time is up. A key that has not failed is let in, and its next failure is its first. One
-- that has is, up to that time, turned away exactly when it has failed as often as the maximum, and
-- told how long to wait, and a further failure counts one more and starts the window again; after
-- that time it is let in. A success clears a key.
pub steps-lockout :
    (key : Text) (o : Option Entry) (t : Throttle) (ss : List Step) (later : ℕ)
    → entry_for key t.entries ≡ o
    → All (Spares key o) ss
    → Answers t key later o (steps t ss) × (entry_for key (reset (steps t ss) key).entries ≡ none)
unfolding reset
steps-lockout key none t ss later h spares =
    (lockout_none key t ss later h spares, drop-none key (steps t ss).entries)
steps-lockout key (some e) t ss later h spares =
    (lockout_some key e t ss later h spares, drop-none key (steps t ss).entries)
