-- ===== src/Common/Lists.antt =====
-- Lists measured and cut by native numbers, under the library's names.
use Prim.Native.Nat.{ℕ, zero, suc, ◌+◌, ◌-◌, ◌≤◌, min}
use mathlib.Core.Path.{◌≡◌, refl, sym, ap, ◌∙◌}
use mathlib.Core.List.{List, [], ◌∷◌, ◌++◌}
use native.Mathlib.Omega.{arith}
use adaptive_transport.Common.Tests.{◌==◌, if◌then◌else◌}

-- An array is a function of its index; its bounds are stated by the invariants.
abbrev pub update {ℓ} : {A : Type ℓ} → (ℕ → A) → ℕ → A → ℕ → A
update f i v j = if j == i then v else f j

module _ {ℓ} {A : Type ℓ} where
  abbrev pub length : List A → ℕ
  length [] = 0
  length (x ∷ xs) = suc (length xs)

  abbrev pub take : ℕ → List A → List A
  take zero xs = []
  take (suc n) [] = []
  take (suc n) (x ∷ xs) = x ∷ take n xs

  abbrev pub drop : ℕ → List A → List A
  drop zero xs = xs
  drop (suc n) [] = []
  drop (suc n) (x ∷ xs) = drop n xs

  abbrev pub replicate : ℕ → A → List A
  replicate zero a = []
  replicate (suc n) a = a ∷ replicate n a

  -- `f` applied to what lies from index `i` on.
  abbrev pub map_from : ℕ → (List A → List A) → List A → List A
  map_from zero f xs = f xs
  map_from (suc i) f [] = []
  map_from (suc i) f (x ∷ xs) = x ∷ map_from i f xs

  -- memcpy: `src` over the start of `dst`, as far as `dst` goes.
  abbrev pub overwrite : List A → List A → List A
  overwrite [] dst = dst
  overwrite (x ∷ src) [] = []
  overwrite (x ∷ src) (y ∷ dst) = x ∷ overwrite src dst

  pub length-append : (xs ys : List A) → length (xs ++ ys) ≡ length xs + length ys
  length-append [] ys = omega arith
  length-append (x ∷ xs) ys = omega (arith, length-append xs ys)

  pub length-take : (n : ℕ) (xs : List A) → length (take n xs) ≡ min n (length xs)
  length-take zero xs = omega arith
  length-take (suc n) [] = omega arith
  length-take (suc n) (x ∷ xs) = omega (arith, length-take n xs)

  pub length-drop : (n : ℕ) (xs : List A) → length (drop n xs) ≡ length xs - n
  length-drop zero xs = omega arith
  length-drop (suc n) [] = omega arith
  length-drop (suc n) (x ∷ xs) = omega (arith, length-drop n xs)

  pub length-overwrite : (src dst : List A) → length (overwrite src dst) ≡ length dst
  length-overwrite [] dst = refl
  length-overwrite (x ∷ src) [] = refl
  length-overwrite (x ∷ src) (y ∷ dst) = ap suc (length-overwrite src dst)

  pub length-replicate : (n : ℕ) (a : A) → length (replicate n a) ≡ n
  length-replicate zero a = refl
  length-replicate (suc n) a = ap suc (length-replicate n a)

  pub take-append-drop : (n : ℕ) (xs : List A) → take n xs ++ drop n xs ≡ xs
  take-append-drop zero xs = refl
  take-append-drop (suc n) [] = refl
  take-append-drop (suc n) (x ∷ xs) = ap (◌∷◌ x) (take-append-drop n xs)

  pub take_all : (n : ℕ) (xs : List A) → length xs ≤ n → take n xs ≡ xs
  take_all zero [] h = refl
  take_all zero (x ∷ xs) h = absurd (omega arith)
  take_all (suc n) [] h = refl
  take_all (suc n) (x ∷ xs) h = ap (◌∷◌ x) (take_all n xs (omega arith))

  pub drop_all : (n : ℕ) (xs : List A) → length xs ≤ n → drop n xs ≡ []
  drop_all zero [] h = refl
  drop_all zero (x ∷ xs) h = absurd (omega arith)
  drop_all (suc n) [] h = refl
  drop_all (suc n) (x ∷ xs) h = drop_all n xs (omega arith)

  pub take-overwrite :
      (src dst : List A) → length src ≤ length dst → take (length src) (overwrite src dst) ≡ src
  take-overwrite [] dst h = refl
  take-overwrite (x ∷ src) [] h = absurd (omega arith)
  take-overwrite (x ∷ src) (y ∷ dst) h = ap (◌∷◌ x) (take-overwrite src dst (omega arith))

  pub drop-map_from :
      (i : ℕ) (f : List A → List A) (xs : List A)
      → i ≤ length xs
      → drop i (map_from i f xs) ≡ f (drop i xs)
  drop-map_from zero f xs h = refl
  drop-map_from (suc i) f [] h = absurd (omega arith)
  drop-map_from (suc i) f (x ∷ xs) h = drop-map_from i f xs (omega arith)

  pub take-map_from :
      (i : ℕ) (f : List A → List A) (xs : List A) → take i (map_from i f xs) ≡ take i xs
  take-map_from zero f xs = refl
  take-map_from (suc i) f [] = refl
  take-map_from (suc i) f (x ∷ xs) = ap (◌∷◌ x) (take-map_from i f xs)

  pub length-map_from :
      (i : ℕ) (f : List A → List A) (xs : List A)
      → ((ys : List A) → length (f ys) ≡ length ys)
      → length (map_from i f xs) ≡ length xs
  length-map_from zero f xs h = h xs
  length-map_from (suc i) f [] h = refl
  length-map_from (suc i) f (x ∷ xs) h = ap suc (length-map_from i f xs h)

  pub drop-drop : (m n : ℕ) (xs : List A) → drop n (drop m xs) ≡ drop (m + n) xs
  drop-drop zero n xs = ap (λ k. drop k xs) (let e : n ≡ 0 + n = omega arith in e)
  drop-drop (suc m) n [] = drop_all n [] (omega arith) ∙ sym (drop_all (suc m + n) [] (omega arith))
  drop-drop (suc m) n (x ∷ xs) =
      drop-drop m n xs
      ∙ ap (λ k. drop k (x ∷ xs)) (let e : suc (m + n) ≡ suc m + n = omega arith in e)
