-- ===== src/Wg/Key.antt =====
-- internal/wg/key.go: keys as base64 text. The decoder is encoding/base64's StdEncoding, which
-- skips line breaks and wants the padding.
pub mod Laws
use tunploy.Common.{
  ℕ, zero, suc, ◌+◌, ◌-◌, ◌*◌, ◌/◌, ◌%◌, ◌^◌, ◌≤◌, ◌<◌, ◌≡◌, refl, sym, ap, ap₂, subst, ◌∙◌, ◌≢◌,
  ◌↔◌, ◌⊎◌, inl, inr, Bool, true, false, not, ◌&&◌, ◌||◌, Option, none, some, List, [], ◌∷◌, ◌++◌,
  map, append_assoc, append-nil, arith, ltb, leb, ◌==◌, if◌then◌else◌, ltb→lt, lt→ltb, leb→le,
  le→leb, ==_iff, ==_refl, tests, and_true, Bool-cases, Option-cases, is_some, length,
  length-append, replicate, is_empty, find, any, all, select, update_where, All, All-append,
  All-select, All-find, All-update_where, All-mono, mem, mem-append, eq_text, eq_text_refl,
  eq_text_sound, get_or, set, length-set, get_or-set_self,
}
use tunploy.Common.Text.{Text}
use tunploy.Wg.Model.{Key}

-- The base64 alphabet.
unfoldable pub letter : ℕ → ℕ
letter v =
    if ltb v 26
    then v + b'A'
    else (if ltb v 52
        then v - 26 + b'a'
        else (if ltb v 62 then v - 52 + b'0' else (if v == 62 then b'+' else b'/')))

unfoldable pub value : ℕ → Option ℕ
value c =
    if leb b'A' c && leb c b'Z'
    then some (c - b'A')
    else (if leb b'a' c && leb c b'z'
        then some (c - b'a' + 26)
        else (if leb b'0' c && leb c b'9'
            then some (c - b'0' + 52)
            else (if c == b'+' then some 62 else (if c == b'/' then some 63 else none))))

pub encode : List ℕ → Text
encode [] = []
encode (a ∷ []) = letter (a / 4) ∷ letter (a % 4 * 16) ∷ b'=' ∷ b'=' ∷ []
encode (a ∷ b ∷ []) =
    letter (a / 4) ∷ letter (a % 4 * 16 + b / 16) ∷ letter (b % 16 * 4) ∷ b'=' ∷ []
encode (a ∷ b ∷ c ∷ rest) =
    letter (a / 4)
    ∷ letter (a % 4 * 16 + b / 16)
    ∷ letter (b % 16 * 4 + c / 64)
    ∷ letter (c % 64)
    ∷ encode rest

infixl 5 ◌>>=◌
abbrev ◌>>=◌ {ℓ κ} : {A : Type ℓ} {B : Type κ} → Option A → (A → Option B) → Option B
none >>= f = none
some a >>= f = f a

abbrev first_byte : ℕ → ℕ → ℕ
first_byte u v = u * 4 + v / 16

abbrev second_byte : ℕ → ℕ → ℕ
second_byte v w = v % 16 * 16 + w / 4

abbrev third_byte : ℕ → ℕ → ℕ
third_byte w x = w % 4 * 64 + x

abbrev ended : Text → List ℕ → Option (List ℕ)
ended [] bytes = some bytes
ended (c ∷ rest) bytes = none

-- The last two letters of a quantum, either of which may be padding; then the rest.
abbrev after_two : ℕ → ℕ → ℕ → ℕ → Text → Option (List ℕ) → Option (List ℕ)
after_two u v c d rest more =
    if c == b'='
    then (if d == b'=' then ended rest (first_byte u v ∷ []) else none)
    else (value c >>= λ w.
        (if d == b'='
          then ended rest (first_byte u v ∷ second_byte v w ∷ [])
          else (value d >>= λ x.
              more >>= λ bytes. some (first_byte u v ∷ second_byte v w ∷ third_byte w x ∷ bytes))))

abbrev quantum : ℕ → ℕ → ℕ → ℕ → Text → Option (List ℕ) → Option (List ℕ)
quantum a b c d rest more = value a >>= λ u. value b >>= λ v. after_two u v c d rest more

decode_quanta : Text → Option (List ℕ)
decode_quanta [] = some []
decode_quanta (a ∷ b ∷ c ∷ d ∷ rest) = quantum a b c d rest (decode_quanta rest)
decode_quanta _ = none

abbrev is_break : ℕ → Bool
is_break c = c == 10 || c == 13

pub decode : Text → Option (List ℕ)
unfolding decode_quanta
decode s = decode_quanta (select (λ c. not (is_break c)) s)

-- Key.String
pub key_text : Key → Text
unfolding encode
key_text k = encode k

-- ParseKey; none is ErrInvalidKey.
pub parse_key : Text → Option Key
unfolding decode
parse_key s = do raw ← decode s; if length raw == 32 then some raw else none
