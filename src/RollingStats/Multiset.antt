-- ===== src/RollingStats/Multiset.antt =====
-- The multiset of the window's values: how often it holds each, and in which order.
use adaptive_transport.Common.{
  ℕ, ◌+◌, ◌≤◌, ◌≡◌, refl, inl, inr, ltb, Bool-cases, List, [], ◌∷◌, ◌++◌, if◌then◌else◌, arith,
}
use adaptive_transport.Common.Bytes.{All}
use adaptive_transport.Common.Number.{whole, same, le}
use adaptive_transport.RollingStats.{insert, erase_one}

-- How often a list holds a value.
unfoldable pub count : ℕ → List ℕ → ℕ
count x [] = 0
count x (y ∷ ys) = (if same whole x y then 1 else 0) + count x ys

unfoldable pub sum : List ℕ → ℕ
sum [] = 0
sum (y ∷ ys) = y + sum ys

-- Ascending.
abbrev pub IsSorted : List ℕ → Type 0
IsSorted [] = Unit {0}
IsSorted (x ∷ xs) = All (le whole x) xs × IsSorted xs

pub count-append : (x : ℕ) (xs ys : List ℕ) → count x (xs ++ ys) ≡ count x xs + count x ys
unfolding count
count-append x [] ys = omega arith
count-append x (y ∷ xs) ys = omega (arith, count-append x xs ys)

pub count-insert :
    (x v : ℕ) (xs : List ℕ)
    → count x (insert whole v xs) ≡ (if same whole x v then 1 else 0) + count x xs
unfolding count insert
count-insert x v [] = refl
count-insert x v (y ∷ ys) = elim (Bool-cases (ltb v y)) [
  | inl first ↦ rw first refl
  | inr later ↦ rw later (omega (arith, count-insert x v ys))
]

pub count-erase_one :
    (x v : ℕ) (xs : List ℕ)
    → 1 ≤ count v xs
    → count x (erase_one whole v xs) + (if same whole x v then 1 else 0) ≡ count x xs
unfolding count erase_one
count-erase_one x v [] h = absurd (omega arith)
count-erase_one x v (y ∷ ys) h = elim (Bool-cases (same whole v y)) [
  | inl here ↦ let e : v ≡ y = ground (arith, here) in rw here (rw e (omega arith))
  | inr away ↦
      let more : 1 ≤ count v ys = omega (arith, rw away at h) in
      rw away (omega (arith, count-erase_one x v ys more))
]

pub All-insert : (P : ℕ → Type 0) (v : ℕ) (xs : List ℕ) → P v → All P xs → All P (insert whole v xs)
unfolding insert
All-insert P v [] hv h = (hv, tt)
All-insert P v (y ∷ ys) hv h = elim (Bool-cases (ltb v y)) [
  | inl first ↦ rw first (hv, h)
  | inr later ↦ rw later (h.0, All-insert P v ys hv h.1)
]

All-weaken : (v y : ℕ) (xs : List ℕ) → le whole v y → All (le whole y) xs → All (le whole v) xs
All-weaken v y [] h all = tt
All-weaken v y (x ∷ xs) h all = (ground (arith, h, all.0), All-weaken v y xs h all.1)

pub insert-IsSorted : (v : ℕ) (xs : List ℕ) → IsSorted xs → IsSorted (insert whole v xs)
unfolding insert
insert-IsSorted v [] h = (tt, tt)
insert-IsSorted v (y ∷ ys) h = elim (Bool-cases (ltb v y)) [
  | inl first ↦
      let below : le whole v y = ground (arith, first) in
      rw first ((below, All-weaken v y ys below h.0), h)
  | inr later ↦ rw later (All-insert (le whole y) v ys later h.0, insert-IsSorted v ys h.1)
]

pub All-erase_one : (P : ℕ → Type 0) (v : ℕ) (xs : List ℕ) → All P xs → All P (erase_one whole v xs)
unfolding erase_one
All-erase_one P v [] h = tt
All-erase_one P v (y ∷ ys) h = elim (Bool-cases (same whole v y)) [
  | inl here ↦ rw here h.1
  | inr away ↦ rw away (h.0, All-erase_one P v ys h.1)
]

pub erase_one-IsSorted : (v : ℕ) (xs : List ℕ) → IsSorted xs → IsSorted (erase_one whole v xs)
unfolding erase_one
erase_one-IsSorted v [] h = tt
erase_one-IsSorted v (y ∷ ys) h = elim (Bool-cases (same whole v y)) [
  | inl here ↦ rw here h.1
  | inr away ↦ rw away (All-erase_one (le whole y) v ys h.0, erase_one-IsSorted v ys h.1)
]
