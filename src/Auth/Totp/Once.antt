-- ===== src/Auth/Totp/Once.antt =====
-- Which step a one-time code can match.
use tunploy.Common.{
  ℕ, zero, suc, ◌+◌, ◌-◌, ◌/◌, ◌≤◌, ◌<◌, ◌≡◌, sym, subst, inl, inr, Bool, true, false, not, ◌||◌,
  none, some, List, arith, leb, ◌==◌, leb→le, ==_iff, Bool-cases, is_empty, eq_text, eq_text_sound,
}
use tunploy.Common.Text.{Text, byte_len}
use tunploy.Store.Traffic.{seconds}
use tunploy.Auth.Totp.{
  Codes, without_spaces, totp_digits, totp_code, scan_steps, verify_with, verify_totp, totp_period,
}

-- The first step of a range that is later than another and matches.
pub record IsFirstMatch (matches : ℕ → Bool) (after start n step : ℕ) : Type 0 where
  pub from : start ≤ step
  pub until : step < start + n
  pub later : after < step
  pub match : matches step ≡ true
  pub first : (s : ℕ) → start ≤ s → s < step → after < s → matches s ≡ false

scan_steps-some :
    (matches : ℕ → Bool) (after start n step : ℕ)
    → scan_steps matches after start n ≡ some step
    → IsFirstMatch matches after start n step
scan_steps-some matches after start zero step h = absurd (cc)
scan_steps-some matches after start (suc n) step h = elim (Bool-cases (leb start after)) [
  | inl early ↦
      let m = scan_steps-some matches after (suc start) n step (rw early at h) in
      record {
        from = omega (arith, m.from);
        until = omega (arith, m.until);
        later = m.later;
        match = m.match;
        first = λ s a b c. m.first s (omega (arith, leb→le start after early)) b c;
      }
  | inr late ↦ elim (Bool-cases (matches start)) [
    | inl hit ↦
        let same : start ≡ step = ground arith in
        record {
          from = omega arith;
          until = omega arith;
          later = ground arith;
          match = subst (λ x. matches x ≡ true) same hit;
          first = λ s a b c. absurd (omega arith);
        }
    | inr miss ↦
        let m = scan_steps-some matches after (suc start) n step (rw (late, miss) at h) in
        record {
          from = omega (arith, m.from);
          until = omega (arith, m.until);
          later = m.later;
          match = m.match;
          first = λ s a b c. elim (Bool-cases (s == start)) [
            | inl here ↦ subst (λ x. matches x ≡ false) (sym ((==_iff s start).0 here)) miss
            | inr on ↦ m.first s (ground arith) b c
          ];
        }
  ]
]

scan_steps-none :
    (matches : ℕ → Bool) (after start n : ℕ)
    → scan_steps matches after start n ≡ none
    → (s : ℕ) → start ≤ s
    → s < start + n
    → after < s
    → matches s ≡ false
scan_steps-none matches after start zero h s a b c = absurd (omega arith)
scan_steps-none matches after start (suc n) h s a b c = elim (Bool-cases (leb start after)) [
  | inl early ↦
      scan_steps-none matches after (suc start) n (rw early at h) s
        (omega (arith, leb→le start after early)) (omega arith) c
  | inr late ↦ elim (Bool-cases (matches start)) [
    | inl hit ↦ absurd (ground arith)
    | inr miss ↦ elim (Bool-cases (s == start)) [
      | inl here ↦ subst (λ x. matches x ≡ false) (sym ((==_iff s start).0 here)) miss
      | inr on ↦
          scan_steps-none matches after (suc start) n (rw (late, miss) at h) s (ground arith)
            (omega arith) c
    ]
  ]
]

verify_with-some :
    (lib : Codes) (key code : Text) (now after step : ℕ)
    → verify_with lib key code now after ≡ some step
    → IsFirstMatch
        (λ s. eq_text (totp_code lib key s) code)
        after
        (seconds now / totp_period - 1)
        3
        step
verify_with-some lib key code now after step h =
    elim (Bool-cases (is_empty key || not (byte_len code == totp_digits))) [
      | inl bad ↦ absurd (cc (rw bad at h))
      | inr fine ↦ scan_steps-some _ after (seconds now / totp_period - 1) 3 step (rw fine at h)
    ]

-- From the second period of 1970 on: a code that is accepted matches, for the secret's key, a step
-- that is at most one away from the current one and later than the last step that was used, and none
-- of the steps before it that are as near and as late matches. Of those that a code could match none is accepted twice: with that step
-- as the last one used, the same code is accepted, if at all, for a later step only.
pub verify_totp-once :
    (lib : Codes) (secret code : Text) (key : List ℕ) (now after step : ℕ)
    → totp_period ≤ seconds now
    → lib.decode secret ≡ some key
    → verify_totp lib secret code now after ≡ some step
    → (step ≤ suc (seconds now / totp_period))
      × (seconds now / totp_period ≤ suc step)
      × (after < step)
      × (totp_code lib key step ≡ without_spaces code)
      × ((s : ℕ)
          → seconds now / totp_period ≤ suc s
          → after < s
          → s < step
          → eq_text (totp_code lib key s) (without_spaces code) ≡ false)
      × ((later again : ℕ) → verify_totp lib secret code later step ≡ some again → step < again)
unfolding verify_totp
verify_totp-once lib secret code key now after step from known e =
    let m = verify_with-some lib key (without_spaces code) now after step (rw known at e) in
    (
      omega (arith, m.until),
      omega (arith, m.from),
      m.later,
      eq_text_sound (totp_code lib key step) (without_spaces code) m.match,
      (λ s near late early. m.first s (omega (arith, near)) early late),
      (λ later again f.
          (verify_with-some lib key (without_spaces code) later step again (rw known at f)).later),
    )
