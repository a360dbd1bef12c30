-- ===== src/Common/Number.antt =====
-- What the code does with a `double`, and what holds of the whole numbers up to 2^53 that it can be.
use Prim.Native.Nat.{ℕ, ◌+◌, ◌-◌, ◌*◌, ◌/◌, ◌^◌, ◌≤◌}
use mathlib.Core.Path.{◌≡◌, refl}
use mathlib.Core.Bool.{Bool, false, not, ◌&&◌}
use native.Mathlib.Omega.{arith}
use adaptive_transport.Common.Tests.{ltb}

pub record Number (W : Type 0) : Type 0 where
  pub add : W → W → W
  pub sub : W → W → W
  pub mul : W → W → W
  pub div : W → W → W
  pub of_int : ℕ → W
  pub lt : W → W → Bool
  pub sqrt : W → W

module _ {W : Type 0} (n : Number W) where
  -- The equivalence by which an ordered container finds a key.
  abbrev pub same : W → W → Bool
  same a b = not (n.lt a b) && not (n.lt b a)

  abbrev pub le : W → W → Type 0
  le a b = n.lt b a ≡ false

  -- Sums, differences and comparisons of whole numbers are exact up to 2^53.
  pub record IsExact : Type 0 where
    pub adds : (a b : ℕ) → a + b ≤ 2 ^ 53 → n.add (n.of_int a) (n.of_int b) ≡ n.of_int (a + b)
    pub subtracts : (a b : ℕ) → a + b ≤ 2 ^ 53 → n.sub (n.of_int (a + b)) (n.of_int b) ≡ n.of_int a
    pub compares : (a b : ℕ) → a ≤ 2 ^ 53 → b ≤ 2 ^ 53 → n.lt (n.of_int a) (n.of_int b) ≡ ltb a b

-- The laws can be met: whole numbers. The square root is not used by them.
abbrev pub whole : Number ℕ
whole = record {
  add = ◌+◌;
  sub = ◌-◌;
  mul = ◌*◌;
  div = ◌/◌;
  of_int = λ k. k;
  lt = ltb;
  sqrt = λ k. k;
}

pub whole-IsExact : IsExact whole
whole-IsExact = record {
  adds = λ a b h. refl;
  subtracts = λ a b h. omega arith;
  compares = λ a b h k. refl;
}
