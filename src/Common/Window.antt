-- ===== src/Common/Window.antt =====
-- `n` entries of a ring of `size` slots, from index `i` on and round the end.
use Prim.Native.Nat.{ℕ, zero, suc, ◌+◌, ◌-◌, ◌%◌, ◌≤◌, ◌<◌}
use mathlib.Core.Path.{◌≡◌, refl, sym, ap, ap₂, ◌∙◌}
use mathlib.Core.Logic.{◌≢◌}
use mathlib.Core.List.{List, [], ◌∷◌, ◌++◌}
use native.Mathlib.Nat.{mod-mod, suc-mod, mod-add-mod, mod-eq_of_lt, mod-eq-sub-mod, mod-lt}
use native.Mathlib.Decide.{dec_lt}
use native.Mathlib.Omega.{arith}
use adaptive_transport.Common.Tests.{leb, if◌then◌else◌}
use adaptive_transport.Common.Lists.{length, drop, update}

module _ {ℓ} {A : Type ℓ} where
  abbrev pub window : (ℕ → A) → ℕ → ℕ → ℕ → List A
  window f size i zero = []
  window f size i (suc n) = f (i % size) ∷ window f size (suc i) n

  pub length-window : (f : ℕ → A) (size i n : ℕ) → length (window f size i n) ≡ n
  length-window f size i zero = refl
  length-window f size i (suc n) = ap suc (length-window f size (suc i) n)

  pub window-add :
      (f : ℕ → A) (size i m n : ℕ)
      → window f size i (m + n) ≡ window f size i m ++ window f size (i + m) n
  window-add f size i zero n = ap₂ (λ a b. window f size a b) (omega arith) (omega arith)
  window-add f size i (suc m) n =
      let count : suc m + n ≡ suc (m + n) = omega arith in
      let start : suc i + m ≡ i + suc m = omega arith in
      ap (window f size i) count
      ∙ ap (◌∷◌ (f (i % size))) (
          window-add f size (suc i) m n
          ∙ ap (λ j. window f size (suc i) m ++ window f size j n) start)

  pub window-mod : (f : ℕ → A) (size i n : ℕ) → window f size (i % size) n ≡ window f size i n
  window-mod f size i zero = refl
  window-mod f size i (suc n) = ap₂ ◌∷◌ (ap f (mod-mod i size)) (
      sym (window-mod f size (suc (i % size)) n)
      ∙ ap (λ j. window f size j n) (sym (suc-mod i size))
      ∙ window-mod f size (suc i) n)

  pub drop-window :
      (f : ℕ → A) (size i m n : ℕ)
      → m ≤ n
      → drop m (window f size i n) ≡ window f size (i + m) (n - m)
  drop-window f size i zero n h = ap₂ (λ a b. window f size a b) (omega arith) (omega arith)
  drop-window f size i (suc m) zero h = absurd (omega arith)
  drop-window f size i (suc m) (suc n) h =
      drop-window f size (suc i) m n (omega arith)
      ∙ ap₂ (λ a b. window f size a b) (omega arith) (omega arith)

  -- A write to a slot that the window does not meet.
  pub window-update :
      (f : ℕ → A) (size i n j : ℕ) (v : A)
      → ((k : ℕ) → k < n → (i + k) % size ≢ j)
      → window (update f j v) size i n ≡ window f size i n
  window-update f size i zero j v away = refl
  window-update f size i (suc n) j v away = ap₂ ◌∷◌ (ground (arith, first)) (
      window-update f size (suc i) n j v
        (λ k h e. away (suc k) (omega arith) (ap (λ (t : ℕ). t % size) (omega arith) ∙ e)))
    where
      first : i % size ≢ j
      first e = away 0 (omega arith) (ap (λ (t : ℕ). t % size) (omega arith) ∙ e)

-- Two places less than `size` apart are different slots.
pub mod-ne : (size i d : ℕ) → 0 < d → d < size → (i + d) % size ≢ i % size
mod-ne size i d h lt e = go (dec_lt (i % size + d) size)
  where
    shift : (i % size + d) % size ≡ i % size
    shift = mod-add-mod i size d ∙ e

    low : i % size < size
    low = mod-lt i (omega arith)

    go : Dec (i % size + d < size) → ⊥
    go (yes p) = omega (arith, shift, mod-eq_of_lt p)
    go (no p) = omega (
      arith,
      shift,
      low,
      mod-eq-sub-mod {n = i % size + d} {m = size} (omega arith),
      mod-eq_of_lt {n = i % size + d - size} {m = size} (omega (arith, low)),
    )

-- How far index `a` is ahead of index `b`, going round.
abbrev pub gap : ℕ → ℕ → ℕ → ℕ
gap size a b = if leb b a then a - b else a + size - b

pub mod-gap : (size a b : ℕ) → a < size → b < size → (a + size - b) % size ≡ gap size a b
mod-gap size a b ha hb = elim (dec_lt a b) [
  | yes p ↦ ground (arith, mod-eq_of_lt {n = a + size - b} {m = size} (omega arith))
  | no p ↦ ground (
    arith,
    mod-eq-sub-mod {n = a + size - b} {m = size} (omega arith),
    mod-eq_of_lt {n = a - b} {m = size} (omega arith),
    ap (λ (t : ℕ). t % size) (let e : a + size - b - size ≡ a - b = omega arith in e),
  )
]

-- An index below twice the size, brought back below the size.
pub mod-wrap : (size i : ℕ) → i < size + size → i % size ≡ (if leb size i then i - size else i)
mod-wrap size i h = elim (dec_lt i size) [
  | yes p ↦ ground (arith, mod-eq_of_lt p)
  | no p ↦ ground (
    arith,
    mod-eq-sub-mod {n = i} {m = size} (omega arith),
    mod-eq_of_lt {n = i - size} {m = size} (omega arith),
  )
]

-- Going on from `b` by the gap leads to `a`.
pub add-gap-mod : (size a b : ℕ) → a < size → b < size → (b + gap size a b) % size ≡ a
add-gap-mod size a b ha hb = ground (arith, mod-wrap size (b + gap size a b))

-- A write to the slot behind a window extends the window by what is written.
pub window-update_end {ℓ} :
    {A : Type ℓ} (f : ℕ → A) (size i m j : ℕ) (v : A)
    → j ≡ (i + m) % size
    → m < size
    → window (update f j v) size i (m + 1) ≡ window f size i m ++ v ∷ []
window-update_end f size i m j v e room =
    window-add (update f j v) size i m 1
    ∙ ap₂ ◌++◌ (window-update f size i m j v away) (ap (λ x. x ∷ []) (ground (arith, e)))
  where
    away : (k : ℕ) → k < m → (i + k) % size ≢ j
    away k h same = mod-ne size (i + k) (m - k) (omega arith) (omega arith) (
        ap (λ (t : ℕ). t % size) (let t : i + k + (m - k) ≡ i + m = omega arith in t)
        ∙ sym e
        ∙ sym same)
