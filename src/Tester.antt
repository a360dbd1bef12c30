-- ===== src/Tester.antt =====
-- src/tester.cpp: bytes as hexadecimal text. `main` prints what the other parts return, and is not modelled.
pub mod Decode
mod Tests
use adaptive_transport.Common.{
  ℕ, zero, suc, ◌+◌, ◌-◌, ◌*◌, ◌/◌, ◌%◌, ◌^◌, bit_and, Bool, true, false, List, [], ◌∷◌, ◌++◌, ◌==◌,
  ltb, if◌then◌else◌,
}

-- The characters `'0'`, `'A'`, `' '` and `'\n'`.
abbrev pub zero_char : ℕ
zero_char = 48

abbrev pub letter_a : ℕ
letter_a = 65

abbrev pub space : ℕ
space = 32

abbrev pub newline : ℕ
newline = 10

unfoldable pub nib2char : ℕ → ℕ
nib2char nib = if ltb nib 10 then nib + zero_char else nib + letter_a - 10

-- The characters of the word that the code returns, up to the 0 behind them.
unfoldable pub byte2hex : ℕ → List ℕ
unfolding nib2char
byte2hex val = nib2char (bit_and val 240 / 2 ^ 4) ∷ nib2char (bit_and val 15) ∷ space ∷ []

-- The loop, where `count` bytes have been printed: what it prints.
unfoldable pub hex_from : ℕ → List ℕ → List ℕ
unfolding byte2hex
hex_from count [] = newline ∷ []
hex_from count (b ∷ bytes) =
    let rest = hex_from (count + 1) bytes in
    byte2hex b ++ (if (count + 1) % 64 == 0 then newline ∷ rest else rest)

unfoldable pub hex_print : List ℕ → List ℕ
unfolding hex_from
hex_print bytes = hex_from 0 bytes
