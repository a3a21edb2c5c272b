-- ===== src/Wg/Key/Laws.antt =====
-- A key survives its text.
use tunploy.Common.{
  ℕ, ◌+◌, ◌*◌, ◌/◌, ◌%◌, ◌<◌, ◌≡◌, refl, ap, ap₂, ◌∙◌, ◌≢◌, false, not, Option, some, List, [], ◌∷◌,
  arith, ◌==◌, length, select, All,
}
use tunploy.Common.Text.{Text}
use tunploy.Common.Show.{OneLine}
use tunploy.Wg.Model.{Key}
use tunploy.Common.Text.{Text}
use tunploy.Common.Show.{OneLine}
use tunploy.Wg.Model.{Key}
use tunploy.Wg.Key.{
  letter, value, encode, decode, decode_quanta, key_text, parse_key, is_break, quantum, first_byte,
  second_byte, third_byte,
}

abbrev AreBytes : List ℕ → Type 0
AreBytes = All (λ b. b < 256)

value-letter : (v : ℕ) → v < 64 → value (letter v) ≡ some v
unfolding value letter
value-letter v h = ground arith

letter_not_pad : (v : ℕ) → (letter v == b'=') ≡ false
unfolding letter
letter_not_pad v = ground arith

letter_not_break : (v : ℕ) → is_break (letter v) ≡ false
unfolding letter
letter_not_break v = ground arith

bytes_first : (a b : ℕ) → b < 256 → first_byte (a / 4) (a % 4 * 16 + b / 16) ≡ a
bytes_first a b h = omega arith

bytes_second :
    (b c : ℕ)
    → b < 256
    → c < 256
    → (a : ℕ) → second_byte (a % 4 * 16 + b / 16) (b % 16 * 4 + c / 64) ≡ b
bytes_second b c h k a = omega arith

bytes_third : (b c : ℕ) → c < 256 → third_byte (b % 16 * 4 + c / 64) (c % 64) ≡ c
bytes_third b c h = omega arith

module _ (u v w x : ℕ) (hu : u < 64) (hv : v < 64) (rest : Text) (more : Option (List ℕ)) where
  quantum_one : quantum (letter u) (letter v) b'=' b'=' [] more ≡ some (first_byte u v ∷ [])
  quantum_one = rw (value-letter u hu, value-letter v hv)

  quantum_two :
      w < 64
      → quantum (letter u) (letter v) (letter w) b'=' [] more
        ≡ some (first_byte u v ∷ second_byte v w ∷ [])
  quantum_two hw = rw (value-letter u hu, value-letter v hv, letter_not_pad w, value-letter w hw)

  quantum_three :
      (bytes : List ℕ)
      → w < 64
      → x < 64
      → more ≡ some bytes
      → quantum (letter u) (letter v) (letter w) (letter x) rest more
        ≡ some (first_byte u v ∷ second_byte v w ∷ third_byte w x ∷ bytes)
  quantum_three bytes hw hx e = rw (
    value-letter u hu,
    value-letter v hv,
    letter_not_pad w,
    value-letter w hw,
    letter_not_pad x,
    value-letter x hx,
    e,
  )

decode_quanta-encode : (bytes : List ℕ) → AreBytes bytes → decode_quanta (encode bytes) ≡ some bytes
unfolding decode_quanta encode
decode_quanta-encode [] h = refl
decode_quanta-encode (a ∷ []) h =
    quantum_one (a / 4) (a % 4 * 16) 0 0 (omega arith) (omega arith) [] (some [])
    ∙ ap (λ x. some (x ∷ [])) (omega arith)
decode_quanta-encode (a ∷ b ∷ []) h =
    quantum_two (a / 4) (a % 4 * 16 + b / 16) (b % 16 * 4) 0 (omega arith) (omega arith) []
      (some []) (omega arith)
    ∙ ap₂ (λ x y. some (x ∷ y ∷ [])) (omega arith) (omega arith)
decode_quanta-encode (a ∷ b ∷ c ∷ rest) h =
    quantum_three (a / 4) (a % 4 * 16 + b / 16) (b % 16 * 4 + c / 64) (c % 64) (omega arith)
      (omega arith) (encode rest) _ rest (omega arith) (omega arith)
      (decode_quanta-encode rest h.1.1.1)
    ∙ cc (
      bytes_first a b (omega arith),
      bytes_second b c (omega arith) (omega arith) a,
      bytes_third b c (omega arith),
    )

encode-no_break : (bytes : List ℕ) → select (λ c. not (is_break c)) (encode bytes) ≡ encode bytes
unfolding encode
encode-no_break [] = refl
encode-no_break (a ∷ []) = simp letter_not_break
encode-no_break (a ∷ b ∷ []) = simp letter_not_break
encode-no_break (a ∷ b ∷ c ∷ rest) = simp (letter_not_break, encode-no_break rest)

-- The text of a key reads back as the key, so what is stored and shown loses nothing.
pub parse_key-key_text : (k : Key) → length k ≡ 32 → AreBytes k → parse_key (key_text k) ≡ some k
unfolding parse_key decode key_text
parse_key-key_text k n h = rw (encode-no_break k, decode_quanta-encode k h, n)

letter-OneLine : (v : ℕ) → letter v ≢ 10
unfolding letter
letter-OneLine v = ground arith

encode-OneLine : (bytes : List ℕ) → OneLine (encode bytes)
unfolding encode
encode-OneLine [] = tt
encode-OneLine (a ∷ []) = (letter-OneLine _, (letter-OneLine _, (omega arith, (omega arith, tt))))
encode-OneLine (a ∷ b ∷ []) =
    (letter-OneLine _, (letter-OneLine _, (letter-OneLine _, (omega arith, tt))))
encode-OneLine (a ∷ b ∷ c ∷ rest) = (
  letter-OneLine _,
  (letter-OneLine _, (letter-OneLine _, (letter-OneLine _, encode-OneLine rest))),
)

pub key_text-OneLine : (k : Key) → OneLine (key_text k)
unfolding key_text
key_text-OneLine k = encode-OneLine k
