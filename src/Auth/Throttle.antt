-- ===== src/Auth/Throttle.antt =====
-- internal/auth/throttle.go: too many failures in a row shut a key out for a while.
pub mod Entries
pub mod Lockout
use tunploy.Common.{
  ℕ, zero, suc, ◌+◌, ◌-◌, ◌*◌, ◌/◌, ◌%◌, ◌^◌, ◌≤◌, ◌<◌, ◌≡◌, refl, sym, ap, ap₂, subst, ◌∙◌, ◌≢◌,
  ◌↔◌, ◌⊎◌, inl, inr, Bool, true, false, not, ◌&&◌, ◌||◌, Option, none, some, List, [], ◌∷◌, ◌++◌,
  map, append_assoc, append-nil, arith, ltb, leb, ◌==◌, if◌then◌else◌, ltb→lt, lt→ltb, leb→le,
  le→leb, ==_iff, ==_refl, tests, and_true, Bool-cases, Option-cases, is_some, length,
  length-append, replicate, is_empty, find, any, all, select, update_where, All, All-append,
  All-select, All-find, All-update_where, All-mono, mem, mem-append, eq_text, eq_text_refl,
  eq_text_sound, get_or, set, length-set, get_or-set_self,
}
use tunploy.Common.Text.{Text}

-- throttleEntry
pub record Entry : Type 0 where
  pub failures : ℕ
  pub reset_at : ℕ

-- Throttle; times and the window are in nanoseconds, and max is not negative.
pub record Throttle : Type 0 where
  pub max : ℕ
  pub window : ℕ
  pub entries : List (Text × Entry)

abbrev pub new_throttle : ℕ → ℕ → Throttle
new_throttle max window = record { max = max; window = window; entries = [] }

abbrev pub entry_for : Text → List (Text × Entry) → Option Entry
entry_for key [] = none
entry_for key ((k, e) ∷ es) = if eq_text k key then some e else entry_for key es

abbrev pub put_entry : Text → Entry → List (Text × Entry) → List (Text × Entry)
put_entry key e [] = (key, e) ∷ []
put_entry key e ((k, f) ∷ es) = if eq_text k key then (key, e) ∷ es else (k, f) ∷ put_entry key e es

abbrev pub drop_entry : Text → List (Text × Entry) → List (Text × Entry)
drop_entry key es = select (λ (x : Text × Entry). not (eq_text x.0 key)) es

abbrev pub is_past : ℕ → Entry → Bool
is_past now e = ltb e.reset_at now

abbrev pub allowed_by : Throttle → Text → ℕ → Option Entry → (Bool × ℕ) × Throttle
allowed_by t key now none = ((true, 0), t)
allowed_by t key now (some e) =
    if is_past now e
    then ((true, 0), record t { entries = drop_entry key t.entries })
    else (if leb t.max e.failures then ((false, e.reset_at - now), t) else ((true, 0), t))

-- Allowed, with how long to wait.
unfoldable pub allowed : Throttle → Text → ℕ → (Bool × ℕ) × Throttle
allowed t key now = allowed_by t key now (entry_for key t.entries)

-- prune
abbrev pub prune : ℕ → List (Text × Entry) → List (Text × Entry)
prune now es = select (λ (x : Text × Entry). not (is_past now x.1)) es

abbrev pub failed_entry : ℕ → ℕ → Option Entry → Entry
failed_entry window now none = record { failures = 1; reset_at = now + window }
failed_entry window now (some e) =
    if is_past now e
    then record { failures = 1; reset_at = now + window }
    else record { failures = suc e.failures; reset_at = now + window }

-- Fail
unfoldable pub fail : Throttle → Text → ℕ → Throttle
fail t key now =
    let es = prune now t.entries in
    record t { entries = put_entry key (failed_entry t.window now (entry_for key es)) es }

-- Reset
unfoldable pub reset : Throttle → Text → Throttle
reset t key = record t { entries = drop_entry key t.entries }
