-- ===== src/Common/Path.antt =====
-- filepath.Join and filepath.Clean, on paths below one directory.
use tunploy.Common.{
  ap, ◌∙◌, ◌/◌, ◌%◌, ℕ, ◌≡◌, refl, ◌≢◌, Bool, true, false, not, ◌&&◌, ◌||◌, ltb, List, [], ◌∷◌,
  ◌++◌, arith, ◌==◌, if◌then◌else◌, inl, inr, Bool-cases, is_empty, all, All, eq_text,
}
use tunploy.Common.Text.{Text, codes, split_on}
use tunploy.Common.Int.{pos}
use tunploy.Common.Show.{in_base, in_base_from, in_base-All, digit, digit-above, int_text}

-- The parts so far, the last one first, without their last one: `..` climbs further only from where
-- nothing is left to leave.
abbrev parent : List Text → List Text
parent [] = codes ".." ∷ []
parent (p ∷ ps) = if eq_text p (codes "..") then codes ".." ∷ p ∷ ps else ps

abbrev enter : Text → List Text → List Text
enter part ps =
    if is_empty part || eq_text part (codes ".")
    then ps
    else (if eq_text part (codes "..") then parent ps else part ∷ ps)

abbrev reversed : List Text → List Text → List Text
reversed [] done = done
reversed (p ∷ ps) done = reversed ps (p ∷ done)

-- filepath.Clean
abbrev clean_from : List Text → List Text → List Text
clean_from ps [] = reversed ps []
clean_from ps (part ∷ parts) = clean_from (enter part ps) parts

-- filepath.Join of a directory, by its parts, and a name, which may hold slashes.
pub join_path : List Text → Text → List Text
join_path dir name = clean_from [] (dir ++ split_on b'/' name)

-- A name that a directory can hold.
abbrev pub is_name : Text → Bool
is_name s =
    not (is_empty s)
    && (not (eq_text s (codes "."))
        && (not (eq_text s (codes "..")) && all (λ c. not (c == b'/')) s))

split_on-no_slash : (s : Text) → all (λ c. not (c == b'/')) s ≡ true → split_on b'/' s ≡ s ∷ []
unfolding split_on
split_on-no_slash [] h = refl
split_on-no_slash (c ∷ s) h = ground (arith, split_on-no_slash s)

tests_of :
    (a b c d : Bool)
    → (not a && (not b && (not c && d))) ≡ true
    → (a ≡ false) × (b ≡ false) × (c ≡ false) × (d ≡ true)
tests_of true b c d h = absurd (cc)
tests_of false true c d h = absurd (cc)
tests_of false false true d h = absurd (cc)
tests_of false false false d h = (refl, refl, refl, h)

name_tests :
    (s : Text)
    → is_name s ≡ true
    → (is_empty s ≡ false)
      × (eq_text s (codes ".") ≡ false)
      × (eq_text s (codes "..") ≡ false)
      × (all (λ c. not (c == b'/')) s ≡ true)
name_tests s h = tests_of (is_empty s) (eq_text s (codes ".")) (eq_text s (codes "..")) _ h

enter_lem : (s : Text) (ps : List Text) → is_name s ≡ true → enter s ps ≡ s ∷ ps
enter_lem s ps h = let (full, here, up, plain) = name_tests s h in rw (enter, full, here, up) refl

-- A name of an entry of a directory leads to that entry.
pub join_path-name :
    (dir name : Text)
    → is_name dir ≡ true
    → is_name name ≡ true
    → join_path (dir ∷ []) name ≡ dir ∷ name ∷ []
unfolding join_path
join_path-name dir name d n =
    ap (λ parts. clean_from [] (dir ∷ parts)) (split_on-no_slash name (name_tests name n).3)
    ∙ ap (λ ps. reversed (enter name ps) []) (enter_lem dir [] d)
    ∙ ap (λ ps. reversed ps []) (enter_lem name (dir ∷ []) n)

no_slash : (s : Text) → All (λ c. c ≢ 47) s → all (λ c. not (c == b'/')) s ≡ true
no_slash [] h = refl
no_slash (c ∷ s) h = ground (arith, no_slash s h.1)

number_is_name :
    (s : Text) → is_empty s ≡ false → All (λ c. c ≢ 46) s → All (λ c. c ≢ 47) s → is_name s ≡ true
number_is_name [] e h k = absurd (cc)
number_is_name (c ∷ s) e h k = ground (arith, no_slash (c ∷ s) k)

append-full : (s t : Text) → is_empty t ≡ false → is_empty (s ++ t) ≡ false
append-full [] t h = h
append-full (c ∷ s) t h = refl

in_base-full : (base n : ℕ) → is_empty (in_base base n) ≡ false
unfolding in_base in_base_from
in_base-full base n = elim (Bool-cases (ltb n base)) [
  | inl short ↦ rw short refl
  | inr long ↦ rw long (append-full (in_base_from base n (n / base)) (digit (n % base) ∷ []) refl)
]

-- A number in print is a name.
pub is_name-int_text : (n : ℕ) → is_name (int_text (pos n)) ≡ true
unfolding int_text
is_name-int_text n =
    number_is_name (in_base 10 n) (in_base-full 10 n)
      (in_base-All (λ c. c ≢ 46) (digit-above 46 (omega arith)) 10 n)
      (in_base-All (λ c. c ≢ 47) (digit-above 47 (omega arith)) 10 n)
