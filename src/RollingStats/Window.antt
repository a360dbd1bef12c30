-- ===== src/RollingStats/Window.antt =====
-- The statistics are those of the values noted last.
use adaptive_transport.Common.{
  ℕ, zero, suc, ◌+◌, ◌^◌, ◌++◌, map, min, ◌≤◌, ◌<◌, ◌≡◌, refl, sym, ap, ap₂, ◌∙◌, dec_lt, inl, inr,
  true, false, Bool-cases, some, List, [], ◌∷◌, length, take, take_all, arith,
}
use adaptive_transport.Common.Int.{ℤ, pos, pos_part, ltb_ℤ}
use adaptive_transport.Common.Number.{Number, IsExact}
use adaptive_transport.RollingWindow.{RollingWindow, next_head, push, resize, at}
use adaptive_transport.RollingWindow.Recent.{get_or, pushed, pushed-Holds, at_recent}
use adaptive_transport.RollingStats.{
  RollingStats, is_full, values_held, of_ℤ, set_size, spread, forget, enter, note, note_all,
}
use adaptive_transport.RollingStats.Multiset.{count, sum}
use adaptive_transport.RollingStats.Tallies.{
  take-last, take-nil, oldest_next, Tallies, drop-Tallies, add-Tallies, sum-take-le,
}

-- A series that an `int` counts and whose sum a `double` holds exactly.
pub record IsCountable (vs : List ℕ) : Type 0 where
  pub few : length vs < 2 ^ 31
  pub summed : sum vs ≤ 2 ^ 53

rest-IsCountable : {v : ℕ} {vs : List ℕ} → IsCountable (v ∷ vs) → IsCountable vs
unfolding sum
rest-IsCountable c = record { few = omega (arith, c.few); summed = omega (arith, c.summed) }

module _ {W : Type 0} {n : Number W} (exact : IsExact n) where
  -- The mean is the total's share of each value the window holds.
  abbrev MeanOf : RollingStats W → ℕ → List ℕ → Type 0
  MeanOf s size [] = Unit {0}
  MeanOf s size (v ∷ vs) =
      s.mean ≡ n.div (n.of_int (sum (take size (v ∷ vs)))) (n.of_int (min (length (v ∷ vs)) size))

  -- The statistics of a window of `size` values, after the series `vs`, newest first.
  pub record StatsOf (s : RollingStats W) (w : RollingWindow W) (size : ℕ) (vs : List ℕ)
      : Type 0 where
    pub window : s.window ≡ pushed (n.of_int 0) w size (map n.of_int vs)
    pub tallies : Tallies exact s (take size vs)
    pub mean : MeanOf s size vs

  set_size-StatsOf :
      (s : RollingStats W) (size : ℕ)
      → s.total ≡ n.of_int 0
      → StatsOf (set_size n s size) s.window size []
  unfolding set_size pushed sum count
  set_size-StatsOf s size e = record {
    window = refl;
    tallies = rw (take-nil {W = ℕ} size) (record {
      total = e;
      values = [];
      sorted = refl;
      counts = λ x. refl;
      ascending = tt;
      holdable = tt;
    });
    mean = tt;
  }

  length-map : (vs : List ℕ) → length (map n.of_int vs) ≡ length vs
  length-map [] = refl
  length-map (v ∷ vs) = ap suc (length-map vs)

  get_or-map :
      (vs : List ℕ) (t : ℕ) → get_or (n.of_int 0) (map n.of_int vs) t ≡ n.of_int (get_or 0 vs t)
  get_or-map [] t = refl
  get_or-map (v ∷ vs) zero = refl
  get_or-map (v ∷ vs) (suc t) = get_or-map vs t

  count-pushed :
      (w : RollingWindow W) (size : ℕ) (vs : List W)
      → length vs < 2 ^ 31
      → (pushed (n.of_int 0) w size vs).count ≡ length vs
  unfolding pushed push
  count-pushed w size [] h = unfold resize in refl
  count-pushed w size (v ∷ vs) h = omega (arith, h, count-pushed w size vs (omega (arith, h)))

  -- What `forget` leaves: one value less than the window holds.
  forget-Tallies :
      (s : RollingStats W) (w : RollingWindow W) (m : ℕ) (vs : List ℕ)
      → IsCountable vs
      → StatsOf s w (suc m) vs
      → Tallies exact (forget n s (next_head s.window.size s.window.head)) (take m vs)
  unfolding forget
  forget-Tallies s w m vs c h =
      let us = map n.of_int vs in
      let ring = pushed-Holds (n.of_int 0) w (suc m) us (omega arith) in
      let sized : s.window.size ≡ suc m =
        ap (λ (r : RollingWindow W). r.size) h.window ∙ ring.sized in
      let counted : s.window.count ≡ length vs =
        ap (λ (r : RollingWindow W). r.count) h.window
        ∙ count-pushed w (suc m) us (omega (arith, c.few, length-map vs))
        ∙ length-map vs in
      elim (dec_lt m (length vs)) [
        | yes full ↦
            let test : is_full s.window ≡ true = ground (arith, sized, counted, c.few) in
            let oldest : s.window.buf (next_head s.window.size s.window.head)
                ≡ n.of_int (get_or 0 vs m) =
              ap (λ (r : RollingWindow W). r.buf (next_head r.size r.head)) h.window
              ∙ (let r = pushed (n.of_int 0) w (suc m) us in
                  ap r.buf (
                    ap (λ (k : ℕ). next_head k r.head) ring.sized
                    ∙ sym (oldest_next m r.head ring.head_in)))
              ∙ ring.recent m (omega arith)
              ∙ get_or-map vs m in
            let split = take-last 0 m vs full in
            let fits : sum (take m vs ++ get_or 0 vs m ∷ []) ≤ 2 ^ 53 =
              omega (arith, ap sum split, sum-take-le (suc m) vs, c.summed) in
            rw (test, oldest)
              (drop-Tallies exact s (take m vs) (get_or 0 vs m) fits (rw split at h.tallies))
        | no short ↦
            let test : is_full s.window ≡ false = ground (arith, sized, counted, c.few) in
            let same : take (suc m) vs ≡ take m vs =
              take_all (suc m) vs (omega arith) ∙ sym (take_all m vs (omega arith)) in
            rw test (rw same at h.tallies)
      ]

  enter-StatsOf :
      (s : RollingStats W) (w : RollingWindow W) (size : ℕ) (vs : List ℕ) (v : ℕ)
      → 0 < size
      → IsCountable (v ∷ vs)
      → StatsOf s w size vs
      → StatsOf (enter n s (n.of_int v)) w size (v ∷ vs)
  unfolding enter pushed sum
  enter-StatsOf s w zero vs v some_size c h = absurd (omega arith)
  enter-StatsOf s w (suc m) vs v some_size c h =
      let us = map n.of_int (v ∷ vs) in
      let left = forget n s (next_head s.window.size s.window.head) in
      let kept : Tallies exact left (take m vs) = forget-Tallies s w m vs (rest-IsCountable c) h in
      let after : push s.window (n.of_int v) ≡ pushed (n.of_int 0) w (suc m) us =
        ap (λ (r : RollingWindow W). push r (n.of_int v)) h.window in
      let fits : v + sum (take m vs) ≤ 2 ^ 53 = omega (arith, sum-take-le m vs, c.summed) in
      let tallies =
        add-Tallies exact left (enter n s (n.of_int v)) (take m vs) v fits kept refl refl in
      let ring = pushed-Holds (n.of_int 0) w (suc m) us (omega arith) in
      let counted : (push s.window (n.of_int v)).count ≡ length (v ∷ vs) =
        ap (λ (r : RollingWindow W). r.count) after
        ∙ count-pushed w (suc m) us (omega (arith, c.few, length-map (v ∷ vs)))
        ∙ length-map (v ∷ vs) in
      let sized : (push s.window (n.of_int v)).size ≡ suc m =
        ap (λ (r : RollingWindow W). r.size) after ∙ ring.sized in
      let many : values_held (push s.window (n.of_int v)) ≡ pos (min (length (v ∷ vs)) (suc m)) =
        ground (arith, counted, sized, c.few) in
      record {
        window = after;
        mean = ap₂ (λ (t : W) (k : ℤ). n.div t (of_ℤ n k)) tallies.total many;
        tallies = tallies;
      }

  spread_ends :
      (r : RollingWindow W) (value : ℕ → W) (size : ℕ)
      → ((t : ℕ) → t < size → at r (pos t) ≡ some (value t))
      → (left k : ℕ) (a b : W) → k + left ≤ size
      → (c : W) × (spread n left r k a b ≡ some c)
  unfolding spread
  spread_ends r value size reads zero k a b h = (b, refl)
  spread_ends r value size reads (suc left) k a b h =
      rw (reads k (omega arith), spread)
        (spread_ends r value size reads left (k + 1) _ _ (omega arith))

  -- A value noted in a window of a positive size, when the total and the multiset are those of the last
  -- values, ends with those of the last values again.
  pub note-StatsOf :
      (s : RollingStats W) (w : RollingWindow W) (size : ℕ) (vs : List ℕ) (v : ℕ)
      → 0 < size
      → IsCountable (v ∷ vs)
      → StatsOf s w size vs
      → (s' : RollingStats W) × (note n s (n.of_int v) ≡ some s') × StatsOf s' w size (v ∷ vs)
  unfolding note
  note-StatsOf s w size vs v some_size c h =
      let us = map n.of_int (v ∷ vs) in
      let s1 = enter n s (n.of_int v) in
      let h1 : StatsOf s1 w size (v ∷ vs) = enter-StatsOf s w size vs v some_size c h in
      let t1 = h1.tallies in
      let kept : (s' : RollingStats W)
          → s'.window ≡ s1.window
          → s'.total ≡ s1.total
          → s'.sorted ≡ s1.sorted
          → s'.mean ≡ s1.mean
          → StatsOf s' w size (v ∷ vs) =
        λ s' a b e f. record {
          window = a ∙ h1.window;
          mean = f ∙ h1.mean;
          tallies = record {
            total = b ∙ t1.total;
            values = t1.values;
            sorted = e ∙ t1.sorted;
            counts = t1.counts;
            ascending = t1.ascending;
            holdable = t1.holdable;
          };
        } in
      let ring = pushed-Holds (n.of_int 0) w size us some_size in
      let sized : s1.window.size ≡ size =
        ap (λ (r : RollingWindow W). r.size) h1.window ∙ ring.sized in
      let wsize = values_held s1.window in
      elim (Bool-cases (ltb_ℤ (pos 1) wsize)) [
        | inl many ↦
            let reads : (t : ℕ)
                → t < size
                → at s1.window (pos t) ≡ some (get_or (n.of_int 0) us t) =
              λ t le.
                ap (λ (r : RollingWindow W). at r (pos t)) h1.window
                ∙ at_recent (n.of_int 0) w size us t le in
            let (_, ends) =
              spread_ends s1.window (get_or (n.of_int 0) us) size reads (pos_part wsize) 0
                (n.of_int 0) (n.of_int 0) (ground (arith, sized)) in
            rw (many, ends) (_, refl, kept _ refl refl refl refl)
        | inr one ↦ rw one (_, refl, kept _ refl refl refl refl)
      ]

  -- Where a `double` adds, subtracts and compares whole numbers up to 2^53 exactly, from a window of a
  -- positive size on, when the total is 0: noting a series of fewer than 2^31 whole numbers that add
  -- up to at most 2^53 never fails, and ends with the total, the mean and the multiset of the last
  -- `size` values, in ascending order.
  pub note_all-StatsOf :
      (s : RollingStats W) (size : ℕ) (vs : List ℕ)
      → 0 < size
      → IsCountable vs
      → s.total ≡ n.of_int 0
      → (s' : RollingStats W) × (note_all n (set_size n s size) (map n.of_int vs) ≡ some s')
        × StatsOf s' s.window size vs
  unfolding note_all
  note_all-StatsOf s size [] some_size c e = (_, refl, set_size-StatsOf s size e)
  note_all-StatsOf s size (v ∷ vs) some_size c e =
      let (s', ends, h) = note_all-StatsOf s size vs some_size (rest-IsCountable c) e in
      let (s2, ends2, h2) = note-StatsOf s' s.window size vs v some_size c h in
      rw (ends, ends2) (s2, refl, h2)
