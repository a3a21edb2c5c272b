-- ===== src/Common/Show.antt =====
-- How Go prints a number, and that no print breaks a line.
use tunploy.Common.{
  ℕ, zero, suc, ◌+◌, ◌-◌, ◌*◌, ◌/◌, ◌%◌, ◌<◌, ◌≡◌, refl, ◌≢◌, [], ◌∷◌, ◌++◌, arith, ltb,
  if◌then◌else◌, inl, inr, Bool-cases, All, All-append,
}
use tunploy.Common.Int.{ℤ, pos, negsuc}
use tunploy.Common.Text.{Text}

abbrev pub digit : ℕ → ℕ
digit d = if ltb d 10 then d + b'0' else d - 10 + b'a'

-- The digits of a number; the fuel is above the number of digits.
unfoldable pub in_base_from : ℕ → ℕ → ℕ → Text
in_base_from base zero n = []
in_base_from base (suc fuel) n =
    let front = in_base_from base fuel (n / base) in
    if ltb n base then digit n ∷ [] else front ++ digit (n % base) ∷ []

unfoldable pub in_base : ℕ → ℕ → Text
unfolding in_base_from
in_base base n = in_base_from base (suc n) n

-- strconv.Itoa
unfoldable pub int_text : ℤ → Text
unfolding in_base
int_text (pos n) = in_base 10 n
int_text (negsuc n) = b'-' ∷ in_base 10 (suc n)

-- The text stays on one line.
abbrev pub OneLine : Text → Type 0
OneLine = All (λ c. c ≢ 10)

pub OneLine-append : (s t : Text) → OneLine s → OneLine t → OneLine (s ++ t)
OneLine-append s t = All-append (λ c. c ≢ 10) s t

-- What holds of every digit holds of a number in print.
module _ (P : ℕ → Type 0) (digits : (d : ℕ) → P (digit d)) where
  in_base_from-All : (base fuel n : ℕ) → All P (in_base_from base fuel n)
  unfolding in_base_from
  in_base_from-All base zero n = tt
  in_base_from-All base (suc fuel) n = elim (Bool-cases (ltb n base)) [
    | inl short ↦ rw short (digits n, tt)
    | inr long ↦ rw long (
        All-append P (in_base_from base fuel (n / base)) (digit (n % base) ∷ [])
          (in_base_from-All base fuel (n / base)) (digits (n % base), tt))
  ]

  pub in_base-All : (base n : ℕ) → All P (in_base base n)
  unfolding in_base
  in_base-All base n = in_base_from-All base (suc n) n

pub digit-above : (bound : ℕ) → bound < 48 → (d : ℕ) → digit d ≢ bound
digit-above bound h d = ground arith

pub in_base-OneLine : (base n : ℕ) → OneLine (in_base base n)
in_base-OneLine = in_base-All (λ c. c ≢ 10) (digit-above 10 (omega arith))

pub int_text-OneLine : (z : ℤ) → OneLine (int_text z)
unfolding int_text
int_text-OneLine (pos n) = in_base-OneLine 10 n
int_text-OneLine (negsuc n) = (omega arith, in_base-OneLine 10 (suc n))

-- Reading decimal digits back.
abbrev read_from : ℕ → Text → ℕ
read_from acc [] = acc
read_from acc (c ∷ s) = read_from (acc * 10 + (c - b'0')) s

read_from-append : (acc : ℕ) (s t : Text) → read_from acc (s ++ t) ≡ read_from (read_from acc s) t
read_from-append acc [] t = refl
read_from-append acc (c ∷ s) t = read_from-append (acc * 10 + (c - b'0')) s t

read-in_base_from : (fuel n : ℕ) → n < fuel → read_from 0 (in_base_from 10 fuel n) ≡ n
unfolding in_base_from
read-in_base_from zero n h = absurd (omega arith)
read-in_base_from (suc fuel) n h = ground (
  arith,
  read-in_base_from fuel (n / 10),
  read_from-append 0 (in_base_from 10 fuel (n / 10)) (digit (n % 10) ∷ []),
)

-- The fuel is enough: the decimal digits that are printed read back as the number.
read-in_base : (n : ℕ) → read_from 0 (in_base 10 n) ≡ n
unfolding in_base
read-in_base n = read-in_base_from (suc n) n (omega arith)
