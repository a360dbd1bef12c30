-- ===== src/RollingStats/Tallies.antt =====
-- The total and the multiset of a list of whole numbers.
use adaptive_transport.Common.{
  ℕ, zero, suc, ◌+◌, ◌^◌, map, true, inl, inr, Bool-cases, ltb, ◌≤◌, ◌<◌, ◌≡◌, refl, ap, ◌∙◌, List,
  [], ◌∷◌, ◌++◌, length, take, arith,
}
use adaptive_transport.Common.Number.{Number, whole, same, IsExact}
use adaptive_transport.Common.Bytes.{All}
use adaptive_transport.Common.Window.{gap}
use adaptive_transport.RollingWindow.{next_head}
use adaptive_transport.RollingWindow.Recent.{get_or}
use adaptive_transport.RollingStats.{RollingStats, insert, erase_one}
use adaptive_transport.RollingStats.Multiset.{
  count, sum, IsSorted, count-append, count-insert, count-erase_one, insert-IsSorted, All-insert,
  All-erase_one, erase_one-IsSorted,
}

pub take-last :
    {W : Type 0} (nought : W) (m : ℕ) (vs : List W)
    → m < length vs
    → take (suc m) vs ≡ take m vs ++ get_or nought vs m ∷ []
take-last nought m [] h = absurd (omega arith)
take-last nought zero (v ∷ vs) h = refl
take-last nought (suc m) (v ∷ vs) h = ap (◌∷◌ v) (take-last nought m vs (omega arith))

pub take-nil : {W : Type 0} (m : ℕ) → take {A = W} m [] ≡ []
take-nil zero = refl
take-nil (suc m) = refl

pub oldest_next : (m head : ℕ) → head < suc m → gap (suc m) head m ≡ next_head (suc m) head
oldest_next m head h = ground arith

pub sum-append : (xs ys : List ℕ) → sum (xs ++ ys) ≡ sum xs + sum ys
unfolding sum
sum-append [] ys = omega arith
sum-append (x ∷ xs) ys = omega (arith, sum-append xs ys)

pub sum-take-le : (m : ℕ) (xs : List ℕ) → sum (take m xs) ≤ sum xs
unfolding sum
sum-take-le zero xs = omega arith
sum-take-le (suc m) [] = omega arith
sum-take-le (suc m) (x ∷ xs) = omega (arith, sum-take-le m xs)

-- What a `double` holds exactly.
abbrev pub Holdable : ℕ → Type 0
Holdable x = x ≤ 2 ^ 53

module _ {W : Type 0} {n : Number W} (exact : IsExact n) where
  insert-map :
      (v : ℕ) (xs : List ℕ)
      → Holdable v
      → All Holdable xs
      → insert n (n.of_int v) (map n.of_int xs) ≡ map n.of_int (insert whole v xs)
  unfolding insert
  insert-map v [] h all = refl
  insert-map v (x ∷ xs) h all = elim (Bool-cases (ltb v x)) [
    | inl first ↦ rw (exact.compares v x h all.0, first) refl
    | inr later ↦
        rw (exact.compares v x h all.0, later) (ap (◌∷◌ (n.of_int x)) (insert-map v xs h all.1))
  ]

  erase_one-map :
      (v : ℕ) (xs : List ℕ)
      → Holdable v
      → All Holdable xs
      → erase_one n (n.of_int v) (map n.of_int xs) ≡ map n.of_int (erase_one whole v xs)
  unfolding erase_one
  erase_one-map v [] h all = refl
  erase_one-map v (x ∷ xs) h all = elim (Bool-cases (same whole v x)) [
    | inl here ↦ rw (exact.compares v x h all.0, exact.compares x v all.0 h, here) refl
    | inr away ↦
        rw (exact.compares v x h all.0, exact.compares x v all.0 h, away)
          (ap (◌∷◌ (n.of_int x)) (erase_one-map v xs h all.1))
  ]

  -- The total and the multiset are those of a list of values.
  pub record Tallies (s : RollingStats W) (vs : List ℕ) : Type 0 where
    pub total : s.total ≡ n.of_int (sum vs)
    pub values : List ℕ
    pub sorted : s.sorted ≡ map n.of_int values
    pub counts : (x : ℕ) → count x values ≡ count x vs
    pub ascending : IsSorted values
    pub holdable : All Holdable values

  -- Taking out the last of the values.
  pub drop-Tallies :
      (s : RollingStats W) (xs : List ℕ) (old : ℕ)
      → sum (xs ++ old ∷ []) ≤ 2 ^ 53
      → Tallies s (xs ++ old ∷ [])
      → Tallies
          (record s {
            sorted = erase_one n (n.of_int old) s.sorted;
            total = n.sub s.total (n.of_int old);
          })
          xs
  unfolding count sum
  drop-Tallies s xs old fits h = record {
    total =
        ap (λ (t : W). n.sub t (n.of_int old)) (h.total ∙ ap n.of_int summed)
        ∙ exact.subtracts (sum xs) old (omega (arith, fits, summed));
    values = erase_one whole old h.values;
    sorted =
        ap (erase_one n (n.of_int old)) h.sorted
        ∙ erase_one-map old h.values (omega (arith, fits, summed)) h.holdable;
    counts = λ x.
        omega
          (arith, count-erase_one x old h.values there, h.counts x, count-append x xs (old ∷ []));
    ascending = erase_one-IsSorted old h.values h.ascending;
    holdable = All-erase_one Holdable old h.values h.holdable;
  }
    where
      summed : sum (xs ++ old ∷ []) ≡ sum xs + old
      summed = omega (arith, sum-append xs (old ∷ []))

      itself : same whole old old ≡ true
      itself = ground arith

      there : 1 ≤ count old h.values
      there = rw (h.counts old, count-append old xs (old ∷ []), itself) (omega arith)

  -- Putting in a value.
  pub add-Tallies :
      (s s' : RollingStats W) (xs : List ℕ) (v : ℕ)
      → v + sum xs ≤ 2 ^ 53
      → Tallies s xs
      → s'.total ≡ n.add s.total (n.of_int v)
      → s'.sorted ≡ insert n (n.of_int v) s.sorted
      → Tallies s' (v ∷ xs)
  unfolding count sum
  add-Tallies s s' xs v fits h e f = record {
    total =
        e
        ∙ ap (λ (t : W). n.add t (n.of_int v)) h.total
        ∙ exact.adds (sum xs) v (omega (arith, fits))
        ∙ ap n.of_int (omega arith);
    values = insert whole v h.values;
    sorted =
        f
        ∙ ap (insert n (n.of_int v)) h.sorted
        ∙ insert-map v h.values (omega (arith, fits)) h.holdable;
    counts = λ x. omega (arith, count-insert x v h.values, h.counts x);
    ascending = insert-IsSorted v h.values h.ascending;
    holdable = All-insert Holdable v h.values (omega (arith, fits)) h.holdable;
  }
