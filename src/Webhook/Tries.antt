-- ===== src/Webhook/Tries.antt =====
-- How often a delivery is tried.
use tunploy.Common.{
  ℕ, ◌+◌, ◌≤◌, ◌≡◌, refl, inl, inr, true, false, Option, none, some, List, [], ◌∷◌, arith, ltb,
  if◌then◌else◌, ltb→lt, Bool-cases, is_some, length,
}
use tunploy.Common.Text.{Text}
use tunploy.Store.Webhooks.{Delivery, is_pending, attempted}
use tunploy.Webhook.{Net, attempt_of}

-- One try: when it starts, and how it went.
abbrev pub Try : Type 0
Try = ℕ × ℕ × Option Text

-- What the dispatcher makes of a delivery: it is tried as long as it is pending.
abbrev pub try_all : Net → Delivery → List Try → Delivery
try_all net d [] = d
try_all net d ((start, status, error) ∷ rest) =
    if is_pending d.state
    then try_all net (attempted (attempt_of net d start (status, error)) d) rest
    else d

-- Tries are left, and the next one has a time, exactly while the delivery is pending.
abbrev IsOrdered : Delivery → Type 0
IsOrdered d =
    (d.attempts ≤ 7)
    × (is_pending d.state ≡ true → (d.attempts ≤ 6) × (is_some d.next_attempt ≡ true))
    × (is_pending d.state ≡ false → d.next_attempt ≡ none)

attempted-IsOrdered :
    (net : Net) (d : Delivery) (start : ℕ) (went : ℕ × Option Text)
    → is_pending d.state ≡ true
    → IsOrdered d
    → IsOrdered (attempted (attempt_of net d start went) d)
attempted-IsOrdered net d start (status, none) p h =
    (omega (arith, (h.1 p).0), (λ e. absurd (cc)), λ e. refl)
attempted-IsOrdered net d start (status, some e) p h = elim (Bool-cases (ltb d.attempts 6)) [
  | inl more ↦ rw more (
    omega (arith, ltb→lt d.attempts 6 more),
    (λ q. (omega (arith, ltb→lt d.attempts 6 more), refl)),
    λ q. absurd (cc),
  )
  | inr last ↦ rw last (omega (arith, (h.1 p).0), (λ q. absurd (cc)), λ q. refl)
]

-- A delivery that is in order, as a queued one is, has been tried at most seven times after any
-- number of tries, whatever the receiver answers; and once there have been enough tries to bring
-- their number to seven, it is not pending any more and has no further try ahead.
pub try_all-settles :
    (net : Net) (d : Delivery) (tries : List Try)
    → IsOrdered d
    → ((try_all net d tries).attempts ≤ 7)
      × (7 ≤ d.attempts + length tries
          → (is_pending (try_all net d tries).state ≡ false)
            × ((try_all net d tries).next_attempt ≡ none))
try_all-settles net d [] h = elim (Bool-cases (is_pending d.state)) [
  | inl p ↦ (h.0, λ enough. absurd (omega (arith, (h.1 p).0)))
  | inr done ↦ (h.0, λ enough. (done, h.2 done))
]
try_all-settles net d ((start, status, error) ∷ rest) h = elim (Bool-cases (is_pending d.state)) [
  | inl p ↦
      let d' : Delivery = attempted (attempt_of net d start (status, error)) d in
      let (bound, settled) =
        try_all-settles net d' rest (attempted-IsOrdered net d start (status, error) p h) in
      rw p (bound, λ enough. settled (omega arith))
  | inr done ↦ rw done (h.0, λ enough. (done, h.2 done))
]
