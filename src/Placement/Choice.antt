-- ===== src/Placement/Choice.antt =====
-- The server that Pick chooses.
use tunploy.Common.{
  ℕ, ◌≤◌, ◌≡◌, sym, subst, ◌∙◌, inl, inr, Bool, true, false, Option, none, some, List, [], ◌∷◌,
  ◌++◌, append_assoc, append-nil, arith, ltb, ◌==◌, if◌then◌else◌, ==_refl, Bool-cases, any, select,
  All, All-append, All-mono,
}
use tunploy.Wg.Model.{Instance}
use tunploy.Store.Peers.Allocate.{any-append}
use tunploy.Placement.{has_room, better, best_of, is_wanted, pick, picked}
use tunploy.Apperr.{Result, ok, err}
use tunploy.Common.Text.{Text, trim_space}
use tunploy.Store.Tables.{Db}
use tunploy.Store.Peers.{peer_count}
use tunploy.Store.Servers.{all_instances}

-- A server that can be chosen has at least so many devices.
abbrev Fewer : (ℕ → Bool) → (ℕ → ℕ) → ℕ → Instance → Type 0
Fewer is_running count n s = has_room is_running count s ≡ true → n ≤ count s.id

-- A choice among servers: none that runs with room, or one of them with the fewest devices.
abbrev IsBest : (ℕ → Bool) → (ℕ → ℕ) → List Instance → Option Instance → Type 0
IsBest is_running count ss none = All (λ s. has_room is_running count s ≡ false) ss
IsBest is_running count ss (some b) =
    (has_room is_running count b ≡ true)
    × (any (λ s. s.id == b.id) ss ≡ true)
    × All (Fewer is_running count (count b.id)) ss

seen_last :
    (seen : List Instance) (s : Instance)
    → any (λ (t : Instance). t.id == s.id) (seen ++ s ∷ []) ≡ true
seen_last seen s =
    any-append (λ (t : Instance). t.id == s.id) seen (s ∷ []) ∙ ground (arith, ==_refl s.id)

seen_before :
    (seen : List Instance) (s b : Instance)
    → any (λ (t : Instance). t.id == b.id) seen ≡ true
    → any (λ (t : Instance). t.id == b.id) (seen ++ s ∷ []) ≡ true
seen_before seen s b h = any-append (λ (t : Instance). t.id == b.id) seen (s ∷ []) ∙ ground arith

-- The choice after one more server, of those seen and it.
after_one :
    (is_running : ℕ → Bool) (count : ℕ → ℕ) (seen : List Instance) (best : Option Instance)
    (s : Instance)
    → IsBest is_running count seen best
    → IsBest is_running count
        (seen ++ s ∷ [])
        (if has_room is_running count s then better count best s else best)
after_one is_running count seen none s h = elim (Bool-cases (has_room is_running count s)) [
  | inl room ↦ rw room (
    room,
    seen_last seen s,
    All-append (Fewer is_running count (count s.id)) seen (s ∷ [])
        (All-mono (λ t. has_room is_running count t ≡ false) (Fewer is_running count (count s.id))
          seen (λ t f k. absurd (cc)) h)
        ((λ k. omega arith), tt),
  )
  | inr full ↦
      rw full (All-append (λ t. has_room is_running count t ≡ false) seen (s ∷ []) h (full, tt))
]
after_one is_running count seen (some b) s h = elim (Bool-cases (has_room is_running count s)) [
  | inl room ↦ elim (Bool-cases (ltb (count s.id) (count b.id))) [
    | inl less ↦
        rw (room, less)
          (
            room,
            seen_last seen s,
            All-append (Fewer is_running count (count s.id)) seen (s ∷ [])
                (All-mono (Fewer is_running count (count b.id))
                  (Fewer is_running count (count s.id)) seen (λ t f k. let g = f k in ground arith)
                  h.2)
                ((λ k. omega arith), tt),
          )
    | inr more ↦
        rw (room, more)
          (
            h.0,
            seen_before seen s b h.1,
            All-append (Fewer is_running count (count b.id)) seen (s ∷ []) h.2
                ((λ k. ground arith), tt),
          )
  ]
  | inr full ↦ rw full (
    h.0,
    seen_before seen s b h.1,
    All-append (Fewer is_running count (count b.id)) seen (s ∷ []) h.2 ((λ k. absurd (cc)), tt),
  )
]

best_of-IsBest :
    (is_running : ℕ → Bool) (count : ℕ → ℕ) (seen ss : List Instance) (best : Option Instance)
    → IsBest is_running count seen best
    → IsBest is_running count (seen ++ ss) (best_of is_running count best ss)
unfolding best_of
best_of-IsBest is_running count seen [] best h =
    subst (λ l. IsBest is_running count l best) (sym (append-nil seen)) h
best_of-IsBest is_running count seen (s ∷ ss) best h =
    subst
      (λ l. IsBest is_running count l (
        best_of is_running count (if has_room is_running count s then better count best s else best)
          ss))
      (append_assoc seen (s ∷ []) ss)
      (best_of-IsBest is_running count (seen ++ s ∷ []) ss _
        (after_one is_running count seen best s h))

-- What Pick answers about the servers that match its country, city and skipped server.
abbrev pub Picks : (ℕ → Bool) → (ℕ → ℕ) → List Instance → Result Instance → Type 0
Picks is_running count ss (ok s) = IsBest is_running count ss (some s)
Picks is_running count ss (err e) = IsBest is_running count ss none

picked-Picks :
    (is_running : ℕ → Bool) (count : ℕ → ℕ) (ss : List Instance) (where_ : Text)
    (o : Option Instance)
    → IsBest is_running count ss o
    → Picks is_running count ss (picked where_ o)
picked-Picks is_running count ss where_ none h = h
picked-Picks is_running count ss where_ (some s) h = h

-- For any case folding, states of deployments and database: Pick answers with a server that matches
-- the country, the city and the server to skip, runs, has room for a device, and has the fewest
-- devices of those; it fails exactly when no such server has room.
pub pick-Picks :
    (equal_fold : Text → Text → Bool) (to_upper : Text → Text) (is_running : ℕ → Bool) (db : Db)
    (country city : Text) (skip : ℕ)
    → Picks is_running
        (peer_count db)
        (select
          (is_wanted equal_fold (trim_space country) (trim_space city) skip)
          (all_instances db))
        (pick equal_fold to_upper is_running db country city skip)
unfolding pick
pick-Picks equal_fold to_upper is_running db country city skip =
    let wanted =
      select (is_wanted equal_fold (trim_space country) (trim_space city) skip)
        (all_instances db) in
    picked-Picks is_running (peer_count db) wanted _
      (best_of is_running (peer_count db) none wanted)
      (best_of-IsBest is_running (peer_count db) [] wanted none tt)
