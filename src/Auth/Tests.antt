-- ===== src/Auth/Tests.antt =====
-- Sign-in at concrete keys, secrets and times.
use tunploy.Common.{
  ℕ, suc, ◌/◌, ◌≤◌, ◌<◌, ◌≡◌, refl, true, false, none, some, eq_text, List, [], ◌∷◌, arith,
}
use tunploy.Common.Text.{codes}
use tunploy.Common.Show.{int_text}
use tunploy.Auth.Throttle.{Entry, Throttle, entry_for, allowed, fail, reset}
use tunploy.Auth.Throttle.Lockout.{Step, check, failure, success, steps, Has, steps-lockout}
use tunploy.Auth.Totp.{Codes, totp_code, verify_totp, totp_period, without_spaces}
use tunploy.Auth.Totp.Once.{verify_totp-once}
use tunploy.Store.Traffic.{seconds}

abbrev failed_twice : Entry
failed_twice = record { failures = 2; reset_at = 60 }

abbrev throttle : Throttle
throttle = record { max = 2; window = 50; entries = (codes "ann", failed_twice) ∷ [] }

abbrev meanwhile : List Step
meanwhile = failure (codes "bob") 20 ∷ check (codes "ann") 30 ∷ success (codes "bob") ∷ []

steps-lockout_example :
    ((40 ≤ failed_twice.reset_at
        → ((allowed (steps throttle meanwhile) (codes "ann") 40).0 ≡ (false, 20))
          × Has
              (codes "ann")
              (record { failures = 3; reset_at = 90 })
              (fail (steps throttle meanwhile) (codes "ann") 40))
      × (failed_twice.reset_at < 40
          → (allowed (steps throttle meanwhile) (codes "ann") 40).0 ≡ (true, 0)))
    × (entry_for (codes "ann") (reset (steps throttle meanwhile) (codes "ann")).entries ≡ none)
steps-lockout_example =
    steps-lockout (codes "ann") (some failed_twice) throttle meanwhile 40 refl
      ((refl, omega arith), (omega arith, (refl, tt)))

-- A code that depends on the step only.
abbrev lib : Codes
lib = record { decode = λ secret. some secret; hmac = λ key step. 0 ∷ 0 ∷ 0 ∷ step ∷ 0 ∷ [] }

code_of_41 : verify_totp lib (codes "key") (codes "000 041") 1_200_000_000_000 39 ≡ some 41
unfolding verify_totp totp_code int_text
code_of_41 = refl

verify_totp-once_example :
    (41 ≤ suc (seconds 1_200_000_000_000 / totp_period))
    × (seconds 1_200_000_000_000 / totp_period ≤ suc 41)
    × (39 < 41)
    × (totp_code lib (codes "key") 41 ≡ without_spaces (codes "000 041"))
    × ((s : ℕ)
        → seconds 1_200_000_000_000 / totp_period ≤ suc s
        → 39 < s
        → s < 41
        → eq_text (totp_code lib (codes "key") s) (without_spaces (codes "000 041")) ≡ false)
    × ((later again : ℕ)
        → verify_totp lib (codes "key") (codes "000 041") later 41 ≡ some again
        → 41 < again)
verify_totp-once_example =
    verify_totp-once lib (codes "key") (codes "000 041") (codes "key") 1_200_000_000_000 39 41
      (omega arith) refl code_of_41
