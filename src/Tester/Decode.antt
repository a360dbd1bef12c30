-- ===== src/Tester/Decode.antt =====
-- The text that `hexPrint` prints tells the bytes.
use adaptive_transport.Common.{
  ℕ, ◌+◌, ◌-◌, ◌*◌, ◌/◌, ◌%◌, ◌^◌, ◌<◌, ◌≡◌, refl, ap, ◌∙◌, bit_and, false, inl, inr, Bool-cases,
  List, [], ◌∷◌, ◌++◌, ◌==◌, ltb, if◌then◌else◌, arith,
}
use adaptive_transport.Common.Bits.{and_low, bit_and-mask}
use adaptive_transport.Common.Bytes.{IsBytes}
use adaptive_transport.Tester.{
  zero_char, letter_a, newline, nib2char, byte2hex, hex_from, hex_print,
}

-- The value of a digit.
abbrev pub digit : ℕ → ℕ
digit c = if ltb c letter_a then c - zero_char else c + 10 - letter_a

-- Two digits and a character behind them for each byte; newlines are passed over.
unfoldable pub decode : List ℕ → List ℕ
decode [] = []
decode (a ∷ []) = []
decode (a ∷ b ∷ []) = []
decode (a ∷ b ∷ c ∷ text) =
    let skip = decode (b ∷ c ∷ text) in
    let rest = decode text in if a == newline then skip else (16 * digit a + digit b) ∷ rest

digit-nib2char : (n : ℕ) → n < 16 → (digit (nib2char n) ≡ n) × ((nib2char n == newline) ≡ false)
unfolding nib2char
digit-nib2char n small = ground arith

-- `val & 0xF0` is the upper half of a byte.
high : (b : ℕ) → b < 256 → bit_and b 240 / 2 ^ 4 ≡ b / 16
high b small = omega (
  arith,
  and_low b 240,
  and_low (b / 2) 120,
  and_low (b / 2 / 2) 60,
  and_low (b / 2 / 2 / 2) 30,
  bit_and-mask 4 (b / 2 / 2 / 2 / 2),
)

low : (b : ℕ) → bit_and b 15 ≡ b % 16
low b = bit_and-mask 4 b

decode-newline : (text : List ℕ) → decode (newline ∷ text) ≡ decode text
unfolding decode
decode-newline [] = refl
decode-newline (a ∷ []) = refl
decode-newline (a ∷ b ∷ text) = refl

decode-byte : (b : ℕ) (text : List ℕ) → b < 256 → decode (byte2hex b ++ text) ≡ b ∷ decode text
unfolding decode byte2hex
decode-byte b text small =
    let first = digit-nib2char (bit_and b 240 / 2 ^ 4) (omega (arith, high b small)) in
    let second = digit-nib2char (bit_and b 15) (omega (arith, low b)) in
    rw first.1
      (ap (λ (v : ℕ). v ∷ decode text) (omega (arith, first.0, second.0, high b small, low b)))

decode-hex_from :
    (count : ℕ) (bytes : List ℕ) → IsBytes bytes → decode (hex_from count bytes) ≡ bytes
unfolding hex_from
decode-hex_from count [] h = unfold decode in refl
decode-hex_from count (b ∷ bytes) h = elim (Bool-cases ((count + 1) % 64 == 0)) [
  | inl full ↦ rw full (
      decode-byte b (newline ∷ hex_from (count + 1) bytes) h.0
      ∙ ap (λ (l : List ℕ). b ∷ l)
          (decode-newline (hex_from (count + 1) bytes) ∙ decode-hex_from (count + 1) bytes h.1))
  | inr more ↦ rw more (
      decode-byte b (hex_from (count + 1) bytes) h.0
      ∙ ap (λ (l : List ℕ). b ∷ l) (decode-hex_from (count + 1) bytes h.1))
]

-- For bytes: the text that `hexPrint` prints of them, with its line breaks, is read back as the bytes.
pub decode-hex_print : (bytes : List ℕ) → IsBytes bytes → decode (hex_print bytes) ≡ bytes
unfolding hex_print
decode-hex_print bytes h = decode-hex_from 0 bytes h
