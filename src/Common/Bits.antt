-- ===== src/Common/Bits.antt =====
-- Masks and fields: `&` and `|` with a power of two, as arithmetic.
use Prim.Native.Nat.{
  ℕ, zero, suc, ◌+◌, ◌-◌, ◌*◌, ◌/◌, ◌%◌, ◌^◌, ◌≤◌, ◌<◌, min, max, bit_and, bit_or, digits,
  bit_and-bitwise, bit_or-bitwise,
}
use mathlib.Core.Path.{◌≡◌, refl, sym, ap, ◌∙◌}
use native.Mathlib.Nat.{
  pow-suc, one-le-pow, div-add-mod, mod-lt, mod-eq_of_lt, add-mul-mod_self_left, div-div-eq-div-mul,
}
use native.Mathlib.Omega.{arith}

-- The count of digits in `digits` only has to be large enough.
module _ (rest : ℕ → ℕ) (bit : ℕ → ℕ → ℕ) where
  digits_stable : (j k a b : ℕ) → a ≤ j → a ≤ k → digits rest bit j a b ≡ digits rest bit k a b
  digits_stable zero zero zero b hj hk = refl
  digits_stable zero (suc k) zero b hj hk = refl
  digits_stable (suc j) zero zero b hj hk = refl
  digits_stable (suc j) (suc k) zero b hj hk = refl
  digits_stable (suc j) (suc k) (suc a) b hj hk =
      ap (λ (t : ℕ). t * 2 + bit (suc a % 2) (b % 2))
        (digits_stable j k (suc a / 2) (b / 2) (omega arith) (omega arith))
  digits_stable zero k (suc a) b hj hk = absurd (omega arith)
  digits_stable (suc j) zero (suc a) b hj hk = absurd (omega arith)

-- The lowest digit of `&` and of `|`.
pub and_low : (a b : ℕ) → bit_and a b ≡ bit_and (a / 2) (b / 2) * 2 + min (a % 2) (b % 2)
and_low zero b = rw (bit_and-bitwise 0 b, bit_and-bitwise 0 (b / 2)) (omega arith)
and_low (suc a) b =
    rw (bit_and-bitwise (suc a) b, bit_and-bitwise (suc a / 2) (b / 2))
      (ap (λ (t : ℕ). t * 2 + min (suc a % 2) (b % 2))
        (digits_stable (λ _. 0) min a (suc a / 2) (suc a / 2) (b / 2) (omega arith) (omega arith)))

or_low : (a b : ℕ) → bit_or a b ≡ bit_or (a / 2) (b / 2) * 2 + max (a % 2) (b % 2)
or_low zero b = rw (bit_or-bitwise 0 b, bit_or-bitwise 0 (b / 2)) (omega arith)
or_low (suc a) b =
    rw (bit_or-bitwise (suc a) b, bit_or-bitwise (suc a / 2) (b / 2))
      (ap (λ (t : ℕ). t * 2 + max (suc a % 2) (b % 2))
        (digits_stable (λ y. y) max a (suc a / 2) (suc a / 2) (b / 2) (omega arith) (omega arith)))

-- Each of these goes from `a / 2` to `a` under a bound on `a`.
and_zero_below : (n a : ℕ) → a ≤ n → bit_and a 0 ≡ 0
and_zero_below zero a h = let e : a ≡ 0 = omega arith in rw e
and_zero_below (suc n) zero h = refl
and_zero_below (suc n) (suc a) h =
    omega (arith, and_low (suc a) 0, and_zero_below n (suc a / 2) (omega arith))

or_zero_below : (n a : ℕ) → a ≤ n → bit_or a 0 ≡ a
or_zero_below zero a h = let e : a ≡ 0 = omega arith in rw e
or_zero_below (suc n) zero h = refl
or_zero_below (suc n) (suc a) h =
    omega (arith, or_low (suc a) 0, or_zero_below n (suc a / 2) (omega arith))

zero_or : (b : ℕ) → bit_or 0 b ≡ b
zero_or b = bit_or-bitwise 0 b

halve-mod : (a p : ℕ) → 0 < p → a / 2 % p * 2 + a % 2 ≡ a % (p * 2)
halve-mod a p h = sym (rw split at whole)
  where
    low : ℕ
    low = a / 2 % p * 2 + a % 2

    split : low + p * 2 * (a / 2 / p) ≡ a
    split = omega (arith, div-add-mod (a / 2) p)

    whole : (low + p * 2 * (a / 2 / p)) % (p * 2) ≡ low
    whole =
        add-mul-mod_self_left low (p * 2) (a / 2 / p)
        ∙ mod-eq_of_lt (omega (arith, mod-lt (a / 2) h))

-- A mask of the `k` low bits is the remainder by `2 ^ k`.
pub bit_and-mask : (k a : ℕ) → bit_and a (2 ^ k - 1) ≡ a % 2 ^ k
bit_and-mask zero a = omega (arith, and_zero_below a a (omega arith))
bit_and-mask (suc k) a =
    rw (and_low a (2 ^ suc k - 1), half, odd, bit_and-mask k (a / 2), pow-suc 2 k)
      (omega (arith, halve-mod a (2 ^ k) (one-le-pow k 2 (omega arith))))
  where
    half : (2 ^ suc k - 1) / 2 ≡ 2 ^ k - 1
    half = omega (arith, pow-suc 2 k, one-le-pow k 2 (omega arith))

    odd : (2 ^ suc k - 1) % 2 ≡ 1
    odd = omega (arith, pow-suc 2 k, one-le-pow k 2 (omega arith))

-- A mask of the bit `k` alone.
pub bit_and-bit : (k a : ℕ) → bit_and a (2 ^ k) ≡ a / 2 ^ k % 2 * 2 ^ k
bit_and-bit zero a = omega (arith, and_low a 1, and_zero_below a (a / 2) (omega arith))
bit_and-bit (suc k) a = omega (
  arith,
  and_low a (2 ^ suc k),
  ap (bit_and (a / 2)) half,
  bit_and-bit k (a / 2),
  pow-suc 2 k,
  shift,
  ap (λ (t : ℕ). t % 2 * 2 ^ suc k) shift,
  ap (λ (t : ℕ). a / 2 / 2 ^ k % 2 * t) (pow-suc 2 k),
)
  where
    half : 2 ^ suc k / 2 ≡ 2 ^ k
    half = omega (arith, pow-suc 2 k)

    shift : a / 2 / 2 ^ k ≡ a / 2 ^ suc k
    shift = div-div-eq-div-mul a 2 (2 ^ k) ∙ ap (λ (t : ℕ). a / t) (omega (arith, pow-suc 2 k))

-- `|` of a field of `k` low bits and a field above it is their sum.
pub bit_or-fields : (k q r : ℕ) → r < 2 ^ k → bit_or r (q * 2 ^ k) ≡ r + q * 2 ^ k
bit_or-fields zero q r h = let e : r ≡ 0 = omega arith in rw e (zero_or (q * 1) ∙ omega arith)
bit_or-fields (suc k) q r h = omega (
  arith,
  or_low r (q * 2 ^ suc k),
  ap (bit_or (r / 2)) half,
  bit_or-fields k q (r / 2) (omega (arith, pow-suc 2 k)),
  double,
)
  where
    double : q * 2 ^ suc k ≡ q * 2 ^ k * 2
    double = omega (arith, ap (λ (t : ℕ). q * t) (pow-suc 2 k))

    half : q * 2 ^ suc k / 2 ≡ q * 2 ^ k
    half = omega (arith, double)

pub bit_or_comm : (n a b : ℕ) → a ≤ n → b ≤ n → bit_or a b ≡ bit_or b a
bit_or_comm zero a b ha hb =
    let ea : a ≡ 0 = omega arith in let eb : b ≡ 0 = omega arith in rw (ea, eb)
bit_or_comm (suc n) a b ha hb =
    omega (arith, or_low a b, or_low b a, bit_or_comm n (a / 2) (b / 2) (omega arith) (omega arith))
