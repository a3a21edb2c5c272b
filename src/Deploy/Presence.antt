-- ===== src/Deploy/Presence.antt =====
-- What observe of internal/deploy/activity.go makes of the readings of one device.
use tunploy.Common.{
  ℕ, ◌+◌, ◌≤◌, ◌<◌, ◌≡◌, refl, sym, ap, ap₂, subst, ◌∙◌, inl, inr, Bool, true, false, not, Option,
  none, some, List, [], ◌∷◌, ◌++◌, append-nil, arith, Bool-cases, select, All, All-mono, eq_text,
  eq_text_refl, eq_text_sound,
}
use tunploy.Common.Int.{ℤ, pos, eqz}
use tunploy.Wg.Model.{Key}
use tunploy.Wg.Stats.{PeerStats, Stats, stats_of}
use tunploy.Deploy.{Sample, Samples}
use tunploy.Deploy.Activity.{
  window_of, sample_of, is_within, online, next_sample, observe_one, PeerChange, differ, change_of,
  observe_each,
}

-- The changes that are about one key.
abbrev pub changes_for : Key → List PeerChange → List PeerChange
changes_for key cs = select (λ (c : PeerChange). eq_text c.key key) cs

-- A key that no reading has.
abbrev Unread : Key → Stats → Type 0
Unread key stats = All (λ (e : Key × PeerStats). eq_text e.0 key ≡ false) stats

-- The readings are a map: no key is read twice.
abbrev IsMap : Stats → Type 0
IsMap [] = Unit
IsMap (e ∷ stats) = Unread e.0 stats × IsMap stats

change_of-other :
    (k key : Key) (st : PeerStats) (old : Option Sample) (s : Sample)
    → eq_text k key ≡ false
    → changes_for key (change_of k st old s) ≡ []
change_of-other k key st none s h = refl
change_of-other k key st (some old) s h = ground arith

change_of_self :
    (key : Key) (st : PeerStats) (old : Option Sample) (s : Sample)
    → changes_for key (change_of key st old s) ≡ change_of key st old s
change_of_self key st none s = refl
change_of_self key st (some old) s = ground (arith, eq_text_refl key)

changes_for-append :
    (key : Key) (cs ds : List PeerChange)
    → changes_for key (cs ++ ds) ≡ changes_for key cs ++ changes_for key ds
changes_for-append key [] ds = refl
changes_for-append key (c ∷ cs) ds = let rest = changes_for-append key cs ds in ground arith

observe_each-Unread :
    (prev : Samples) (stats : Stats) (keepalive : ℤ) (now : ℕ) (key : Key)
    → Unread key stats
    → changes_for key (observe_each prev stats keepalive now).1 ≡ []
unfolding observe_each
observe_each-Unread prev [] keepalive now key h = refl
observe_each-Unread prev ((k, st) ∷ stats) keepalive now key h =
    let old = sample_of prev k in
    let s = observe_one old st keepalive now in
    let rest = (observe_each prev stats keepalive now).1 in
    changes_for-append key (change_of k st old s) rest
    ∙ ap₂ (λ xs ys. xs ++ ys) (change_of-other k key st old s h.0)
        (observe_each-Unread prev stats keepalive now key h.1)

-- Each device that is read gets the sample of its own reading, and the changes about it are those
-- of that sample.
observe_each-of :
    (prev : Samples) (stats : Stats) (keepalive : ℤ) (now : ℕ) (key : Key) (st : PeerStats)
    → IsMap stats
    → stats_of stats key ≡ some st
    → let s = observe_one (sample_of prev key) st keepalive now in
      (sample_of (observe_each prev stats keepalive now).0 key ≡ some s)
      × (changes_for key (observe_each prev stats keepalive now).1
          ≡ change_of key st (sample_of prev key) s)
unfolding observe_each
observe_each-of prev [] keepalive now key st h e = absurd (cc)
observe_each-of prev ((k, t) ∷ stats) keepalive now key st h e =
    let rest = (observe_each prev stats keepalive now).1 in
    let here : PeerStats → Sample = λ t. observe_one (sample_of prev k) t keepalive now in
    elim (Bool-cases (eq_text k key)) [
      | inl same ↦
          let p : k ≡ key = eq_text_sound k key same in
          let q : t ≡ st = ground arith in
          rw (same, sym p, sym q)
            (
              refl,
              changes_for-append k (change_of k t (sample_of prev k) (here t)) rest
                  ∙ ap₂ (λ xs ys. xs ++ ys) (change_of_self k t (sample_of prev k) (here t))
                      (observe_each-Unread prev stats keepalive now k h.0)
                  ∙ append-nil _,
            )
      | inr other ↦
          let (found, changes) =
            observe_each-of prev stats keepalive now key st h.1 (ground arith) in
          rw other (
            found,
            changes_for-append key (change_of k t (sample_of prev k) (here t)) rest
                ∙ ap (λ xs. xs ++ changes_for key rest)
                    (change_of-other k key t (sample_of prev k) (here t) other)
                ∙ changes,
          )
    ]

-- Changes that lead from one status of a device to another, each turning the status over.
abbrev pub Follows : Bool → List PeerChange → Bool → Type 0
Follows b [] now = b ≡ now
Follows b (c ∷ cs) now = (c.online ≡ not b) × Follows c.online cs now

Follows-append :
    (b mid now : Bool) (cs ds : List PeerChange)
    → Follows b cs mid
    → Follows mid ds now
    → Follows b (cs ++ ds) now
Follows-append b mid now [] ds f g = subst (λ x. Follows x ds now) (sym f) g
Follows-append b mid now (c ∷ cs) ds f g = (f.0, Follows-append c.online mid now cs ds f.1 g)

differ-not : (a b : Bool) → differ a b ≡ true → a ≡ not b
differ-not a b h = ground arith

differ-false : (a b : Bool) → differ a b ≡ false → b ≡ a
differ-false a b h = ground arith

change_of-Follows :
    (key : Key) (st : PeerStats) (old s : Sample)
    → Follows old.online (change_of key st (some old) s) s.online
change_of-Follows key st old s = elim (Bool-cases (differ s.online old.online)) [
  | inl h ↦ rw h (differ-not s.online old.online h, refl)
  | inr h ↦ rw h (differ-false s.online old.online h)
]

-- The watcher's polls of one server, one after the other.
abbrev pub observe_all : Samples → ℤ → List (Stats × ℕ) → Samples × List PeerChange
observe_all prev keepalive [] = (prev, [])
observe_all prev keepalive ((stats, now) ∷ polls) =
    let seen = observe_each prev stats keepalive now in
    let rest = observe_all seen.0 keepalive polls in (rest.0, seen.1 ++ rest.1)

-- A poll that reads a device.
abbrev ReadsIn : Key → Stats × ℕ → Type 0
ReadsIn key poll = IsMap poll.0 × ((st : PeerStats) × (stats_of poll.0 key ≡ some st))

-- Let a device have a sample, from a poll before. As long as every poll since then reads the device,
-- once, the changes that are reported about it turn its status over one by one, and lead from the
-- status it had to the one it has after the last poll.
pub observe_all-Follows :
    (prev : Samples) (keepalive : ℤ) (polls : List (Stats × ℕ)) (key : Key) (old : Sample)
    → sample_of prev key ≡ some old
    → All (ReadsIn key) polls
    → (s : Sample) × (sample_of (observe_all prev keepalive polls).0 key ≡ some s)
      × Follows old.online (changes_for key (observe_all prev keepalive polls).1) s.online
observe_all-Follows prev keepalive [] key old e h = (old, e, refl)
observe_all-Follows prev keepalive ((stats, now) ∷ polls) key old e h =
    let (st, read) = h.0.1 in
    let mid : Sample = observe_one (some old) st keepalive now in
    let seen = observe_each prev stats keepalive now in
    let (found, changes) = observe_each-of prev stats keepalive now key st h.0.0 read in
    let fixed = subst (λ o. sample_of seen.0 key ≡ some (observe_one o st keepalive now)) e found in
    let (s, end, follows) = observe_all-Follows seen.0 keepalive polls key mid fixed h.1 in
    let told : changes_for key seen.1 ≡ change_of key st (some old) mid =
      changes ∙ ap (λ o. change_of key st o (observe_one o st keepalive now)) e in
    (
      s,
      end,
      rw (changes_for-append key seen.1 (observe_all seen.0 keepalive polls).1) (
          Follows-append old.online mid.online s.online (changes_for key seen.1) _
            (rw told (change_of-Follows key st old mid)) follows),
    )

-- The readings of one device.
abbrev pub observe_run : Sample → ℤ → List (PeerStats × ℕ) → Sample
observe_run s keepalive [] = s
observe_run s keepalive ((st, now) ∷ rest) =
    observe_run (observe_one (some s) st keepalive now) keepalive rest

next_sample-same :
    (s : Sample) (st : PeerStats) (window now : ℕ)
    → st.rx ≡ s.rx
    → next_sample (some s) st window now ≡ record s { seen = now }
next_sample-same s st window now h = ground arith

next_sample-grew :
    (s : Sample) (st : PeerStats) (window now : ℕ)
    → s.rx < st.rx
    → now ≤ s.seen + window
    → next_sample (some s) st window now ≡ record s {
      rx = st.rx;
      since = now;
      seen = now;
      grew = true;
      online = false;
      online_since = none;
    }
next_sample-grew s st window now grew soon = ground arith

observe_run-same :
    (s : Sample) (keepalive : ℤ) (readings : List (PeerStats × ℕ))
    → All (λ (r : PeerStats × ℕ). r.0.rx ≡ s.rx) readings
    → ((observe_run s keepalive readings).rx ≡ s.rx)
      × ((observe_run s keepalive readings).since ≡ s.since)
unfolding observe_one
observe_run-same s keepalive [] h = (refl, refl)
observe_run-same s keepalive ((st, now) ∷ rest) h =
    let mid : Sample = observe_one (some s) st keepalive now in
    let same : next_sample (some s) st (window_of keepalive) now ≡ record s { seen = now } =
      next_sample-same s st (window_of keepalive) now h.0 in
    let kept : mid.rx ≡ s.rx = ap (λ (t : Sample). t.rx) same in
    let since : mid.since ≡ s.since = ap (λ (t : Sample). t.since) same in
    let (rx, start) = observe_run-same mid keepalive rest (
      All-mono (λ (r : PeerStats × ℕ). r.0.rx ≡ s.rx) (λ r. r.0.rx ≡ mid.rx) rest
        (λ r e. e ∙ sym kept) h.1) in
    (rx ∙ kept, start ∙ since)

-- On a server with a keepalive, a device whose counter has not grown since the start of its sample
-- reads as disconnected once the window has passed, after any number of readings with the same
-- counter and whatever its last handshake is; and one whose counter grew within a window of the
-- reading before reads as connected at once.
pub observe_one-window :
    (s : Sample) (keepalive : ℤ) (readings : List (PeerStats × ℕ)) (st : PeerStats) (now : ℕ)
    → eqz keepalive (pos 0) ≡ false
    → All (λ (r : PeerStats × ℕ). r.0.rx ≡ s.rx) readings
    → (st.rx ≡ s.rx
        → s.since + window_of keepalive ≤ now
        → (observe_one (some (observe_run s keepalive readings)) st keepalive now).online ≡ false)
      × (s.rx < st.rx
          → now ≤ (observe_run s keepalive readings).seen + window_of keepalive
          → (observe_one (some (observe_run s keepalive readings)) st keepalive now).online ≡ true)
unfolding observe_one online
observe_one-window s keepalive readings st now on h =
    let run : Sample = observe_run s keepalive readings in
    let (rx, since) = observe_run-same s keepalive readings h in
    let window : ℕ = window_of keepalive in
    let wide : 0 < window = omega arith in
    (
      (λ e late.
          let same = next_sample-same run st window now (e ∙ sym rx) in
          let past : is_within now run.since window ≡ false = ground arith in
          rw (same, on, past) refl),
      (λ grew soon.
          let fresh = next_sample-grew run st window now (omega arith) soon in
          let within : is_within now now window ≡ true = ground arith in
          rw (fresh, on, within) refl),
    )
