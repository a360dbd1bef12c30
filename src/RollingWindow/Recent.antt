-- ===== src/RollingWindow/Recent.antt =====
-- The window holds the values pushed last.
use mathlib.Core.Option
use native.Mathlib.Nat.{mod-eq_of_lt}
use adaptive_transport.Common.{
  ℕ, zero, suc, ◌+◌, ◌%◌, ◌<◌, ◌≡◌, refl, ap, ◌∙◌, false, some, List, [], ◌∷◌, ◌==◌, update, arith,
}
use adaptive_transport.Common.Int.{pos}
use adaptive_transport.Common.Window.{gap, mod-wrap}
use adaptive_transport.RollingWindow.{RollingWindow, next_head, place, resize, push, at}
use adaptive_transport.RollingWindow.Index.{place_lem}

-- The `t`th value of a series, newest first, and `nought` behind its end.
abbrev pub get_or {ℓ} : {W : Type ℓ} → W → List W → ℕ → W
get_or nought [] t = nought
get_or nought (v ∷ vs) zero = v
get_or nought (v ∷ vs) (suc t) = get_or nought vs t

-- The place of index `t` of the ring.
pub place-gap :
    (size head t : ℕ) → head < size → t < size → place size head (pos t) ≡ some (gap size head t)
place-gap size head t head_in t_in =
    let (i, found, i_in, same) = place_lem size head (pos t) (omega arith) head_in in
    let at_head : head % size ≡ head = mod-eq_of_lt head_in in
    let here : i ≡ gap size head t = ground (
      arith,
      same,
      at_head,
      mod-wrap size (i + t),
      ap (λ (k : ℕ). k % size) (let e : head + 0 ≡ head = omega arith in e),
    ) in
    found ∙ ap some here

module _ {W : Type 0} (nought : W) where
  -- A window of a given size after the values of a series, newest first, and no others.
  unfoldable pub pushed : RollingWindow W → ℕ → List W → RollingWindow W
  unfolding resize push
  pushed w size [] = resize nought w size
  pushed w size (v ∷ vs) = push (pushed w size vs) v

  pub record Holds (w : RollingWindow W) (size : ℕ) (vs : List W) : Type 0 where
    pub sized : w.size ≡ size
    pub head_in : w.head < size
    pub recent : (t : ℕ) → t < size → w.buf (gap size w.head t) ≡ get_or nought vs t

  next_head-lt : (size head : ℕ) → head < size → next_head size head < size
  next_head-lt size head h = ground arith

  push-Holds :
      {w : RollingWindow W} {size : ℕ} {vs : List W} (v : W)
      → 0 < size
      → Holds w size vs
      → Holds (push w v) size (v ∷ vs)
  unfolding push
  push-Holds {w} {size} {vs} v some_size h = record {
    sized = h.sized;
    head_in = rw h.sized (next_head-lt size w.head h.head_in);
    recent = now;
  }
    where
      head' : ℕ
      head' = next_head w.size w.head

      now : (t : ℕ) → t < size → update w.buf head' v (gap size head' t) ≡ get_or nought (v ∷ vs) t
      now zero le = ground (arith, h.sized, h.head_in)
      now (suc t) le =
          let back : gap size head' (suc t) ≡ gap size w.head t =
            ground (arith, h.sized, h.head_in) in
          let other : (gap size w.head t == head') ≡ false = ground (arith, h.sized, h.head_in) in
          rw (back, other) (h.recent t (omega arith))

  pub pushed-Holds :
      (w : RollingWindow W) (size : ℕ) (vs : List W) → 0 < size → Holds (pushed w size vs) size vs
  unfolding pushed
  pushed-Holds w size [] h =
      unfold resize in record { sized = refl; head_in = h; recent = λ t le. refl }
  pushed-Holds w size (v ∷ vs) h = push-Holds v h (pushed-Holds w size vs h)

  -- For a window of a positive size that a series has been pushed to, whatever the window was before:
  -- `[t]`, for any `t` below the size, ends without the assertion failing, and is the `t`th value of
  -- the series, newest first, or 0 where it is shorter.
  pub at_recent :
      (w : RollingWindow W) (size : ℕ) (vs : List W) (t : ℕ)
      → t < size
      → at (pushed w size vs) (pos t) ≡ some (get_or nought vs t)
  unfolding at
  at_recent w size vs t le =
      let h = pushed-Holds w size vs (omega arith) in
      let r = pushed w size vs in
      ap (Option.map r.buf)
        (ap (λ (n : ℕ). place n r.head (pos t)) h.sized ∙ place-gap size r.head t h.head_in le)
      ∙ ap some (h.recent t le)
