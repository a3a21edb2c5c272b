-- ===== src/Update/Version.antt =====
-- internal/update/version.go: versions and their order. A version is a byte string.
pub mod Order
use tunploy.Common.{
  ℕ, zero, suc, ◌+◌, ◌-◌, ◌*◌, ◌/◌, ◌%◌, ◌^◌, ◌≤◌, ◌<◌, ◌≡◌, refl, sym, ap, ap₂, subst, ◌∙◌, ◌≢◌,
  ◌↔◌, ◌⊎◌, inl, inr, Bool, true, false, not, ◌&&◌, ◌||◌, Option, none, some, List, [], ◌∷◌, ◌++◌,
  map, append_assoc, append-nil, arith, ltb, leb, ◌==◌, if◌then◌else◌, ltb→lt, lt→ltb, leb→le,
  le→leb, ==_iff, ==_refl, tests, and_true, Bool-cases, Option-cases, is_some, length,
  length-append, replicate, is_empty, find, any, all, select, update_where, All, All-append,
  All-select, All-find, All-update_where, All-mono, mem, mem-append, eq_text, eq_text_refl,
  eq_text_sound, get_or, set, length-set, get_or-set_self,
}
use tunploy.Common.Text.{Text, codes, cut_at, cut_prefix, split_on}

pub record Version : Type 0 where
  pub major : ℕ
  pub minor : ℕ
  pub patch : ℕ
  pub pre : Text

-- What strconv.Atoi accepts of a number that is not negative: an optional sign and digits, below 2^63.
abbrev digit : ℕ → Option ℕ
digit c = if leb b'0' c && leb c b'9' then some (c - b'0') else none

abbrev digits_from : ℕ → Text → Option ℕ
digits_from n [] = some n
digits_from n (c ∷ s) = elim (digit c) [ none ↦ none | some d ↦ digits_from (n * 10 + d) s ]

abbrev in_range : Option ℕ → Option ℕ
in_range none = none
in_range (some n) = if ltb n (2 ^ 63) then some n else none

abbrev unsigned : Text → Option ℕ
unsigned [] = none
unsigned (c ∷ s) = in_range (digits_from 0 (c ∷ s))

abbrev zero_only : Option ℕ → Option ℕ
zero_only none = none
zero_only (some zero) = some 0
zero_only (some (suc n)) = none

abbrev number : Text → Option ℕ
number [] = none
number (c ∷ s) =
    if c == b'+'
    then unsigned s
    else (if c == b'-' then zero_only (unsigned s) else unsigned (c ∷ s))

abbrev before_cut : ℕ → Text → Text × Text
before_cut c s = elim (cut_at c s) [ none ↦ (s, []) | some parts ↦ parts ]

abbrev version_of : Text → List Text → Option Version
version_of pre (a ∷ b ∷ c ∷ []) = elim (number a) [
  | none ↦ none
  | some major ↦ elim (number b) [
    | none ↦ none
    | some minor ↦ elim (number c) [
      | none ↦ none
      | some patch ↦ some (record { major = major; minor = minor; patch = patch; pre = pre })
    ]
  ]
]
version_of pre _ = none

abbrev without_v : Text → Text
without_v s = elim (cut_prefix (codes "v") s) [ none ↦ s | some rest ↦ rest ]

-- parseVersion
unfoldable pub parse_version : Text → Option Version
parse_version s =
    let core = (before_cut b'+' (without_v s)).0 in
    let parts = before_cut b'-' core in version_of parts.1 (split_on b'.' parts.0)

pub data Ordering : Type 0 where
  less same more : Ordering

-- cmp.Compare
abbrev pub compare_numbers : ℕ → ℕ → Ordering
compare_numbers a b = if ltb a b then less else (if ltb b a then more else same)

abbrev pub or_else : Ordering → Ordering → Ordering
or_else less o = less
or_else same o = o
or_else more o = more

-- strings.Compare
abbrev pub compare_texts : Text → Text → Ordering
compare_texts [] [] = same
compare_texts [] (d ∷ t) = less
compare_texts (c ∷ s) [] = more
compare_texts (c ∷ s) (d ∷ t) = or_else (compare_numbers c d) (compare_texts s t)

abbrev pub compare_pre : Text → Text → Ordering
compare_pre [] [] = same
compare_pre [] (d ∷ t) = more
compare_pre (c ∷ s) [] = less
compare_pre (c ∷ s) (d ∷ t) = compare_texts (c ∷ s) (d ∷ t)

-- version.compare
unfoldable pub compare_versions : Version → Version → Ordering
compare_versions v o = or_else (compare_numbers v.major o.major) (
    or_else (compare_numbers v.minor o.minor)
      (or_else (compare_numbers v.patch o.patch) (compare_pre v.pre o.pre)))

abbrev pub is_more : Ordering → Bool
is_more more = true
is_more same = false
is_more less = false

abbrev pub newer_of : Option Version → Option Version → Bool
newer_of none c = false
newer_of (some l) none = false
newer_of (some l) (some c) = is_more (compare_versions l c)

-- newer
unfoldable pub newer : Text → Text → Bool
newer latest current = newer_of (parse_version latest) (parse_version current)

-- IsRelease
is_release : Text → Bool
is_release s = is_some (parse_version s)
