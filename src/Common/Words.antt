-- ===== src/Common/Words.antt =====
-- An `int` of 32 bits: the integer that a word stands for, and the word of an integer.
use Prim.Native.Nat.{ℕ, ◌+◌, ◌-◌, ◌%◌, ◌^◌, ◌<◌}
use mathlib.Core.Path.{◌≡◌, ap}
use native.Mathlib.Omega.{arith}
use adaptive_transport.Common.Tests.{ltb, if◌then◌else◌}
use adaptive_transport.Common.Int.{
  ℤ, pos, negsuc, pos_part, neg_part, sub_ℕ, ◌+ℤ◌, ◌-ℤ◌, +ℤ_parts, -ℤ_parts,
}

abbrev pub int_of : ℕ → ℤ
int_of word = if ltb word (2 ^ 31) then pos word else sub_ℕ word (2 ^ 32)

abbrev pub word_of : ℤ → ℕ
word_of (pos n) = n % 2 ^ 32
word_of (negsuc n) = 2 ^ 32 - 1 - n % 2 ^ 32

-- The result of an operation on `int`s, wrapped round.
abbrev pub wrap : ℤ → ℤ
wrap a = int_of (word_of a)

word_of-lt : (a : ℤ) → word_of a < 2 ^ 32
word_of-lt (pos n) = omega arith
word_of-lt (negsuc n) = omega arith

word_of-int_of : (w : ℕ) → w < 2 ^ 32 → word_of (int_of w) ≡ w
word_of-int_of w h = ground arith

-- Two integers that differ by whole turns have the same word.
word_of-turn :
    (a b : ℤ) (x y : ℕ)
    → pos_part a + neg_part b + x ≡ pos_part b + neg_part a + y
    → x % 2 ^ 32 ≡ y % 2 ^ 32
    → word_of a ≡ word_of b
word_of-turn (pos a) (pos b) x y e h = omega (arith, e, h)
word_of-turn (pos a) (negsuc b) x y e h = omega (arith, e, h)
word_of-turn (negsuc a) (pos b) x y e h = omega (arith, e, h)
word_of-turn (negsuc a) (negsuc b) x y e h = omega (arith, e, h)

word_of-parts :
    (a b : ℤ)
    → word_of a ≡ word_of b
    → (pos_part b + neg_part a) % 2 ^ 32 ≡ (pos_part a + neg_part b) % 2 ^ 32
word_of-parts (pos a) (pos b) h = omega (arith, h)
word_of-parts (pos a) (negsuc b) h = omega (arith, h)
word_of-parts (negsuc a) (pos b) h = omega (arith, h)
word_of-parts (negsuc a) (negsuc b) h = omega (arith, h)

word_of-wrap : (a : ℤ) → word_of (wrap a) ≡ word_of a
word_of-wrap a = word_of-int_of (word_of a) (word_of-lt a)

-- A sum and a difference wrap round to the same, whether their first part was wrapped or not.
pub wrap_add : (a b : ℤ) → wrap (wrap a +ℤ b) ≡ wrap (a +ℤ b)
wrap_add a b = ap int_of (
    word_of-turn (wrap a +ℤ b) (a +ℤ b) (pos_part a + neg_part (wrap a))
      (pos_part (wrap a) + neg_part a) (omega (arith, +ℤ_parts (wrap a) b, +ℤ_parts a b))
      (word_of-parts (wrap a) a (word_of-wrap a)))

pub wrap_sub : (a b : ℤ) → wrap (wrap a -ℤ b) ≡ wrap (a -ℤ b)
wrap_sub a b = ap int_of (
    word_of-turn (wrap a -ℤ b) (a -ℤ b) (pos_part a + neg_part (wrap a))
      (pos_part (wrap a) + neg_part a) (omega (arith, -ℤ_parts (wrap a) b, -ℤ_parts a b))
      (word_of-parts (wrap a) a (word_of-wrap a)))
