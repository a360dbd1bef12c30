-- ===== src/RollingWindow/Index.antt =====
-- The loops that bring an index back into the ring.
use native.Mathlib.Nat.{
  mod-eq_of_lt, mod-eq-sub-mod, add-mod_right, mod-add-mod, zero-mod, mod_self, mod-lt,
}
use adaptive_transport.Common.{
  ℕ, zero, suc, ◌+◌, ◌-◌, ◌%◌, ◌≤◌, ◌<◌, ◌≡◌, refl, sym, ap, ◌∙◌, dec_lt, true, false, some, arith,
}
use adaptive_transport.Common.Int.{ℤ, pos, negsuc, pos_part, neg_part, ◌+ℤ◌, ◌-ℤ◌, -ℤ_parts, ltb_ℤ}
use adaptive_transport.RollingWindow.{raise, lower, place}

-- An index that has reached the ring from below.
raise_pos : (fuel size i : ℕ) → raise fuel size (pos i) ≡ pos i
unfolding raise
raise_pos zero size i = refl
raise_pos (suc fuel) size i = ground arith

raise_lem :
    (fuel size : ℕ) (idx : ℤ)
    → 0 < size
    → neg_part idx ≤ fuel
    → (i : ℕ) × (raise fuel size idx ≡ pos i) × ((i + neg_part idx) % size ≡ pos_part idx % size)
unfolding raise ◌+ℤ◌
raise_lem fuel size (pos n) h le =
    (n, raise_pos fuel size n, ap (λ (t : ℕ). t % size) (omega arith))
raise_lem zero size (negsuc n) h le = absurd (omega arith)
raise_lem (suc fuel) size (negsuc n) h le = elim (dec_lt n size) [
  | yes near ↦
      let e : negsuc n +ℤ pos size ≡ pos (size - suc n) = ground arith in
      let back : size - suc n + suc n ≡ size = omega arith in
      (
        size - suc n,
        rw (below, e) (raise_pos fuel size (size - suc n)),
        ap (λ (t : ℕ). t % size) back ∙ mod_self size ∙ sym (zero-mod size),
      )
  | no far ↦
      let e : negsuc n +ℤ pos size ≡ negsuc (n - size) = ground arith in
      let (i, runs, same) = raise_lem fuel size (negsuc (n - size)) h (omega arith) in
      let back : i + suc (n - size) + size ≡ i + suc n = omega arith in
      (
        i,
        rw (below, e) runs,
        sym (ap (λ (t : ℕ). t % size) back) ∙ add-mod_right (i + suc (n - size)) size ∙ same,
      )
]
  where
    below : ltb_ℤ (negsuc n) (pos 0) ≡ true
    below = ground arith

lower_lem : (fuel size i : ℕ) → 0 < size → i ≤ fuel → lower fuel size (pos i) ≡ pos (i % size)
unfolding lower ◌-ℤ◌
lower_lem zero size i h le = let e : i ≡ 0 = omega arith in rw e (ap pos (sym (mod-eq_of_lt h)))
lower_lem (suc fuel) size i h le = elim (dec_lt i size) [
  | yes inside ↦
      let stop : ltb_ℤ (pos i) (pos size) ≡ true = ground arith in
      rw (stop, mod-eq_of_lt inside) refl
  | no outside ↦
      let goes_on : ltb_ℤ (pos i) (pos size) ≡ false = ground arith in
      let e : pos i -ℤ pos size ≡ pos (i - size) = ground arith in
      rw (goes_on, e)
        (lower_lem fuel size (i - size) h (omega arith)
          ∙ ap pos (sym (mod-eq-sub-mod {n = i} {m = size} (omega arith))))
]

-- Adding `a` to both sides of a congruence, where the index is `b - a`.
shift :
    (idx : ℤ) (r a b size : ℕ)
    → (r + neg_part idx) % size ≡ pos_part idx % size
    → pos_part idx + a ≡ neg_part idx + b
    → (r + a) % size ≡ b % size
shift (pos n) r a b size same e =
    let plain : r % size ≡ n % size = ap (λ (t : ℕ). t % size) (omega arith) ∙ same in
    let total : n + a ≡ b = omega arith in
    sym (mod-add-mod r size a)
    ∙ ap (λ (t : ℕ). (t + a) % size) plain
    ∙ mod-add-mod n size a
    ∙ ap (λ (t : ℕ). t % size) total
shift (negsuc n) r a b size same e =
    let total : r + a ≡ r + suc n + b = omega arith in
    ap (λ (t : ℕ). t % size) total
    ∙ sym (mod-add-mod (r + suc n) size b)
    ∙ ap (λ (t : ℕ). (t + b) % size) (same ∙ zero-mod size)
    ∙ ap (λ (t : ℕ). t % size) (omega arith)

-- For a ring with a head in it and any index `t`, also a negative one, the loops end within the rounds given and the
-- assertion holds: the place is the one in the ring that `t` steps lead from to the head.
pub place_lem :
    (size head : ℕ) (t : ℤ)
    → 0 < size
    → head < size
    → (i : ℕ) × (place size head t ≡ some i)
      × (i < size)
      × ((i + pos_part t) % size ≡ (head + neg_part t) % size)
unfolding place
place_lem size head t h inside =
    let idx = pos head -ℤ t in
    let (r, up, same) = raise_lem (neg_part idx) size idx h (omega arith) in
    let down = lower_lem r size r h (omega arith) in
    let low : r % size < size = mod-lt r h in
    let above : ltb_ℤ (pos (r % size)) (pos 0) ≡ false = ground arith in
    let within : ltb_ℤ (pos (r % size)) (pos size) ≡ true = ground arith in
    (
      r % size,
      rw (up, down, above, within) refl,
      low,
      mod-add-mod r size (pos_part t)
          ∙ shift idx r (pos_part t) (head + neg_part t) size same
              (omega (arith, -ℤ_parts (pos head) t)),
    )
