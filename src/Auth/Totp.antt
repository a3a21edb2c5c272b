-- ===== src/Auth/Totp.antt =====
-- internal/auth/totp.go: one-time codes. Base32, HMAC and upper case are parameters.
pub mod Once
use tunploy.Common.{
  ℕ, zero, suc, ◌+◌, ◌-◌, ◌*◌, ◌/◌, ◌%◌, ◌^◌, ◌≤◌, ◌<◌, ◌≡◌, refl, sym, ap, ap₂, subst, ◌∙◌, ◌≢◌,
  ◌↔◌, ◌⊎◌, inl, inr, Bool, true, false, not, ◌&&◌, ◌||◌, Option, none, some, List, [], ◌∷◌, ◌++◌,
  map, append_assoc, append-nil, arith, ltb, leb, ◌==◌, if◌then◌else◌, ltb→lt, lt→ltb, leb→le,
  le→leb, ==_iff, ==_refl, tests, and_true, Bool-cases, Option-cases, is_some, length,
  length-append, replicate, is_empty, find, any, all, select, update_where, All, All-append,
  All-select, All-find, All-update_where, All-mono, mem, mem-append, eq_text, eq_text_refl,
  eq_text_sound, get_or, set, length-set, get_or-set_self,
}
use tunploy.Common.Int.{
  ℤ, pos, negsuc, pos_part, neg_part, sub_ℕ, ◌+ℤ◌, ◌-ℤ◌, ◌≤ℤ◌, ◌<ℤ◌, ltz, lez, eqz, from_bits64,
  wrap64, add64, sub64, wrap64_pos, add64_pos, sub64_pos, eqz→eq, eqz_refl,
}
use tunploy.Common.Text.{Text, codes, is_space, byte_len}
use tunploy.Common.Show.{int_text}
use tunploy.Store.Traffic.{seconds}

abbrev pub totp_period : ℕ
totp_period = 30

abbrev pub totp_digits : ℕ
totp_digits = 6

abbrev totp_skew : ℕ
totp_skew = 1

-- The libraries: base32 decoding of a secret in upper case, and the code of a key at a step.
pub record Codes : Type 0 where
  pub decode : Text → Option (List ℕ)
  pub hmac : List ℕ → ℕ → List ℕ

-- strings.Join(strings.Fields(code), "")
abbrev pub without_spaces : Text → Text
without_spaces s = select (λ c. not (is_space c)) s

abbrev bytes_at : List ℕ → ℕ → ℕ
bytes_at sum off =
    ((get_or sum off 0 * 256 + get_or sum (suc off) 0) * 256 + get_or sum (off + 2) 0) * 256
    + get_or sum (off + 3) 0

abbrev padded : ℕ → Text → Text
padded width s = replicate (width - length s) b'0' ++ s

-- totpCode
unfoldable pub totp_code : Codes → List ℕ → ℕ → Text
totp_code lib key step =
    let sum = lib.hmac key step in
    let off = get_or sum (length sum - 1) 0 % 16 in
    padded totp_digits (int_text (pos (bytes_at sum off % 2 ^ 31 % 1_000_000)))

-- The loop of VerifyTOTP from one step on.
abbrev pub scan_steps : (ℕ → Bool) → ℕ → ℕ → ℕ → Option ℕ
scan_steps matches after step zero = none
scan_steps matches after step (suc n) =
    let rest = scan_steps matches after (suc step) n in
    if leb step after then rest else (if matches step then some step else rest)

abbrev pub verify_with : Codes → List ℕ → Text → ℕ → ℕ → Option ℕ
verify_with lib key code now after =
    if is_empty key || not (byte_len code == totp_digits)
    then none
    else scan_steps (λ step. eq_text (totp_code lib key step) code) after
        (seconds now / totp_period - totp_skew) (suc (2 * totp_skew))

abbrev verify_key : Codes → Option (List ℕ) → Text → ℕ → ℕ → Option ℕ
verify_key lib none code now after = none
verify_key lib (some key) code now after = verify_with lib key (without_spaces code) now after

-- VerifyTOTP: the step that the code matched. `now` is from 1970 plus a period on.
unfoldable pub verify_totp : Codes → Text → Text → ℕ → ℕ → Option ℕ
verify_totp lib secret code now after = verify_key lib (lib.decode secret) code now after

-- ValidTOTPSecret
is_valid_totp_secret : Codes → Text → Bool
is_valid_totp_secret lib secret = elim (lib.decode secret) [
  | none ↦ false
  | some key ↦ leb 16 (length key)
]
