-- ===== src/Deploy/Activity.antt =====
-- internal/deploy/activity.go: which devices are connected, from WireGuard's counters. Instants and
-- durations are nanoseconds; `time.Sub` is exact for them.
use tunploy.Common.{
  ℕ, ◌+◌, ◌*◌, Bool, true, false, not, ◌&&◌, Option, none, some, List, [], ◌∷◌, ◌++◌, map, ltb, leb,
  if◌then◌else◌, all, eq_text,
}
use tunploy.Common.Int.{ℤ, pos, pos_part, eqz}
use tunploy.Common.Text.{Text}
use tunploy.Wg.Model.{Key}
use tunploy.Wg.Stats.{PeerStats, Stats}
use tunploy.Deploy.{Sample, Samples, Manager, M, put_entry, entry_of}
use tunploy.Apperr.{ok}

abbrev second : ℕ
second = 1_000_000_000

-- handshakeWindow
abbrev handshake_window : ℕ
handshake_window = 180 * second

-- `2*keepalive` seconds and ten; Validate keeps keepalive between 0 and 65535.
abbrev pub window_of : ℤ → ℕ
window_of keepalive = 2 * pos_part keepalive * second + 10 * second

abbrev pub sample_of : Samples → Key → Option Sample
sample_of [] key = none
sample_of ((k, s) ∷ ss) key = if eq_text k key then some s else sample_of ss key

-- `now.Sub(t) < d`, for a time that may lie ahead.
abbrev pub is_within : ℕ → ℕ → ℕ → Bool
is_within now t d = ltb now (t + d)

abbrev is_recent : Option ℕ → ℕ → Bool
is_recent none now = false
is_recent (some t) now = is_within now t handshake_window

-- online
unfoldable pub online : PeerStats → Sample → ℤ → ℕ → Bool
online st s keepalive now =
    if eqz keepalive (pos 0)
    then is_recent st.latest_handshake now
    else (if not (is_within now s.since (window_of keepalive))
        then false
        else (if s.grew then true else is_recent st.latest_handshake now))

abbrev first_sample : ℕ → ℕ → Sample
first_sample rx now = record {
  rx = rx;
  since = now;
  seen = now;
  grew = false;
  online = false;
  online_since = none;
}

-- The sample before its status is known. A zero time is `none`.
abbrev pub next_sample : Option Sample → PeerStats → ℕ → ℕ → Sample
next_sample none st window now = first_sample st.rx now
next_sample (some s) st window now =
    if ltb st.rx s.rx
    then first_sample st.rx now
    else (if ltb s.rx st.rx
        then record s {
          rx = st.rx;
          since = now;
          seen = now;
          grew = leb now (s.seen + window);
          online = false;
          online_since = none;
        }
        else record s { seen = now })

abbrev was_online : Option Sample → Bool
was_online none = false
was_online (some s) = s.online

abbrev online_since_of : Option Sample → Option ℕ
online_since_of none = none
online_since_of (some s) = s.online_since

-- The sample that a reading leaves.
unfoldable pub observe_one : Option Sample → PeerStats → ℤ → ℕ → Sample
observe_one old st keepalive now =
    let s = next_sample old st (window_of keepalive) now in
    let up = online st s keepalive now in
    record s {
      online = up;
      online_since = if up && not (was_online old) then some now else online_since_of old;
    }

-- PeerChange
pub record PeerChange : Type 0 where
  pub key : Key
  pub online : Bool
  pub endpoint : Text
  pub online_since : Option ℕ

abbrev pub differ : Bool → Bool → Bool
differ true b = not b
differ false b = b

abbrev pub change_of : Key → PeerStats → Option Sample → Sample → List PeerChange
change_of key st none s = []
change_of key st (some old) s =
    if differ s.online old.online
    then record {
      key = key;
      online = s.online;
      endpoint = st.endpoint;
      online_since = s.online_since;
    }
      ∷ []
    else []

-- The loop of observe: the next samples and the changes. The readings are a map, so a key is read once
-- and their order means nothing.
unfoldable pub observe_each : Samples → Stats → ℤ → ℕ → Samples × List PeerChange
observe_each prev [] keepalive now = ([], [])
observe_each prev ((key, st) ∷ stats) keepalive now =
    let old = sample_of prev key in
    let s = observe_one old st keepalive now in
    let rest = observe_each prev stats keepalive now in
    ((key, s) ∷ rest.0, change_of key st old s ++ rest.1)

abbrev samples_of : List (ℕ × Samples) → ℕ → Samples
samples_of all id = elim (entry_of all id) [ none ↦ [] | some ss ↦ ss ]

-- observe, on the manager's samples of one server
unfoldable pub observe : ℕ → Stats → ℤ → ℕ → M (List PeerChange)
observe id stats keepalive now m =
    let seen = observe_each (samples_of m.activity id) stats keepalive now in
    (ok seen.1, record m { activity = put_entry id seen.0 m.activity })

-- activity.online and Manager.Online
online_keys : Manager → ℕ → List (Key × Bool)
online_keys m id = map (λ (e : Key × Sample). (e.0, e.1.online)) (samples_of m.activity id)
