-- ===== src/UdpStream/Limiter/Control/Bound.antt =====
-- What every round of the limiter keeps: the window of delays with its sum, and the bound of the bandwidth.
use adaptive_transport.Common.{
  ℕ, ◌+◌, ◌%◌, ◌^◌, ◌<◌, ◌≤◌, ◌≡◌, refl, sym, ap, ◌∙◌, Bool, true, false, inl, inr, Bool-cases,
  some, List, [], ◌∷◌, ◌++◌, ltb, leb, if◌then◌else◌, length, arith,
}
use adaptive_transport.Common.Int.{ℤ, pos, ◌+ℤ◌, ◌-ℤ◌, ltb_ℤ, +ℤ_parts, -ℤ_parts, eq_of_parts}
use adaptive_transport.Common.Words.{wrap, wrap_add, wrap_sub}
use adaptive_transport.Common.Bytes.{All}
use adaptive_transport.Ptt.{Ptt, readable}
use adaptive_transport.Ptt.View.{IsValid, unread}
use adaptive_transport.UdpStream.Limiter.{no_stats}
use adaptive_transport.UdpStream.Limiter.Reading.{noted, limiter_stats_lem}
use adaptive_transport.UdpStream.Limiter.Control.{
  Doubles, Control, Inputs, wnd, limit, min_packets, drain, ymin_of, slow_down, speed_up,
  change_bandwidth, assess, judge, slide, react, limiter_round, limiter_rounds,
}

abbrev pub sum : List ℤ → ℤ
sum [] = pos 0
sum (y ∷ q) = y +ℤ sum q

add_sub : (a b : ℤ) → (a +ℤ b) -ℤ a ≡ b
add_sub a b = eq_of_parts _ _ (omega (arith, +ℤ_parts a b, -ℤ_parts (a +ℤ b) a))

add_assoc : (a b c : ℤ) → (a +ℤ b) +ℤ c ≡ a +ℤ (b +ℤ c)
add_assoc a b c =
    eq_of_parts _ _
      (omega (arith, +ℤ_parts a b, +ℤ_parts (a +ℤ b) c, +ℤ_parts b c, +ℤ_parts a (b +ℤ c)))

zero_add : (a : ℤ) → pos 0 +ℤ a ≡ a +ℤ pos 0
zero_add a = eq_of_parts _ _ (omega (arith, +ℤ_parts (pos 0) a, +ℤ_parts a (pos 0)))

sum-append : (q : List ℤ) (y : ℤ) → sum (q ++ y ∷ []) ≡ sum q +ℤ y
sum-append [] y = sym (zero_add y)
sum-append (x ∷ q) y = ap (λ (s : ℤ). x +ℤ s) (sum-append q y) ∙ sym (add_assoc x (sum q) y)

drain_lem :
    (y0 : ℤ) (q : List ℤ)
    → y0 ≡ wrap (sum q)
    → ((drain y0 q).0 ≡ wrap (sum (drain y0 q).1)) × (length (drain y0 q).1 ≤ wnd)
unfolding drain
drain_lem y0 [] e = (e, omega arith)
drain_lem y0 (y ∷ q) e = elim (Bool-cases (ltb wnd (length (y ∷ q)))) [
  | inl many ↦
      let less : wrap (y0 -ℤ y) ≡ wrap (sum q) =
        ap (λ (s : ℤ). wrap (s -ℤ y)) e ∙ wrap_sub (y +ℤ sum q) y ∙ ap wrap (add_sub y (sum q)) in
      rw many (drain_lem (wrap (y0 -ℤ y)) q less)
  | inr few ↦ rw few (e, ground arith)
]

module _ {W : Type 0} (d : Doubles W) where
  -- The window of at most `wnd` delays with its sum, as an `int`, and the bandwidth.
  pub record IsBounded (c : Control W) : Type 0 where
    pub few : length c.q ≤ wnd
    pub summed : c.y0 ≡ wrap (sum c.q)
    pub bounded : c.bandwidth ≤ limit

  -- Not below 0; this holds also of a `double` that is not a number.
  abbrev pub IsNotNegative : W → Type 0
  IsNotNegative w = d.number.lt w (d.number.of_int 0) ≡ false

  -- The conversion of three quarters of a `uint32_t` is not more than it.
  abbrev pub Shrinks : Type 0
  Shrinks =
      (b : ℕ) → b < 2 ^ 32 → d.to_u32 (d.number.mul (d.number.of_int b) (d.hundredths (pos 75))) ≤ b

  -- The conversion of three quarters, and of what lies from 0 to below the limit; and that neither the
  -- quotients the code forms of whole numbers nor their sums with a whole number are negative.
  pub record Truncates : Type 0 where
    pub shrinks : Shrinks
    pub fits :
        (w : W)
        → IsNotNegative w
        → d.number.lt w (d.number.of_int limit) ≡ true
        → d.to_u32 w ≤ limit
    pub divides :
        (a b : ℕ)
        → IsNotNegative (
            d.number.div
              (d.number.of_int a)
              (d.number.div (d.number.of_int b) (d.number.of_int 1000000)))
    pub adds :
        (a : ℕ) (w : W) → IsNotNegative w → IsNotNegative (d.number.add (d.number.of_int a) w)

  if-IsBounded :
      (b : Bool) {c1 c2 : Control W}
      → IsBounded c1
      → IsBounded c2
      → IsBounded (if b then c1 else c2)
  if-IsBounded true h1 h2 = h1
  if-IsBounded false h1 h2 = h2

  slow_down-IsBounded :
      (i : Inputs W) {c : Control W} → Truncates → IsBounded c → IsBounded (slow_down d i c)
  unfolding slow_down
  slow_down-IsBounded i {c} t h = record {
    few = h.few;
    summed = h.summed;
    bounded = omega (arith, t.shrinks c.bandwidth (omega (arith, h.bounded)), h.bounded);
  }

  at_most :
      (w : W) (b : Bool)
      → IsNotNegative w
      → d.number.lt w (d.number.of_int limit) ≡ b
      → Truncates
      → (if b then d.to_u32 w else limit) ≤ limit
  at_most w true up e t = t.fits w up e
  at_most w false up e t = omega arith

  speed_up-IsBounded :
      (i : Inputs W) {c : Control W} → Truncates → IsBounded c → IsBounded (speed_up d i c)
  unfolding speed_up
  speed_up-IsBounded i {c} t h = record {
    few = h.few;
    summed = h.summed;
    bounded = at_most _ _ (t.adds c.bandwidth _ (t.divides i.mtu _)) refl t;
  }

  change_bandwidth-IsBounded :
      (i : Inputs W) (c : Control W) → Truncates → IsBounded c → IsBounded (change_bandwidth d i c)
  unfolding change_bandwidth
  change_bandwidth-IsBounded i c t h =
      let h1 = if-IsBounded (ltb_ℤ c.state (pos 0)) (slow_down-IsBounded i t h) h in
      if-IsBounded _ (speed_up-IsBounded i t h1) h1

  assess-IsBounded :
      (i : Inputs W) (ndropped : ℕ) {c : Control W}
      → IsBounded c
      → IsBounded (assess d i ndropped c)
  unfolding assess
  assess-IsBounded i ndropped h = record { few = h.few; summed = h.summed; bounded = h.bounded }

  judge-IsBounded :
      (i : Inputs W) (ndropped : ℕ) (c : Control W)
      → Truncates
      → IsBounded c
      → IsBounded (judge d i ndropped c)
  unfolding judge
  judge-IsBounded i ndropped c t h =
      let h1 = assess-IsBounded i ndropped h in
      if-IsBounded _ (change_bandwidth-IsBounded i (assess d i ndropped c) t h1) h1

  slide-IsBounded :
      (c : Control W) → c.y0 ≡ wrap (sum c.q) → c.bandwidth ≤ limit → IsBounded (slide d c)
  unfolding slide
  slide-IsBounded c summed bounded =
      let drained = drain_lem c.y0 c.q summed in
      record { few = drained.1; summed = drained.0; bounded = bounded }

  react-IsBounded :
      (i : Inputs W) (ymin : ℤ) (ndropped : ℕ) (c : Control W)
      → Truncates
      → IsBounded c
      → IsBounded (react d i ymin ndropped c)
  unfolding react
  react-IsBounded i ymin ndropped c t h =
      let c1 : Control W = record c {
        iter = (c.iter + 1) % 2 ^ 32;
        q = c.q ++ ymin ∷ [];
        y0 = wrap (c.y0 +ℤ ymin);
      } in
      let added : c1.y0 ≡ wrap (sum c1.q) =
        ap (λ (s : ℤ). wrap (s +ℤ ymin)) h.summed
        ∙ wrap_add (sum c.q) ymin
        ∙ ap wrap (sym (sum-append c.q ymin)) in
      let h2 : IsBounded (slide d c1) = slide-IsBounded c1 added h.bounded in
      elim (Bool-cases (ltb (length c1.q) wnd)) [
        | inl short ↦ rw short (record { few = ground arith; summed = added; bounded = h.bounded })
        | inr full ↦ rw full (if-IsBounded _ h2 (judge-IsBounded i ndropped (slide d c1) t h2))
      ]

  limiter_round-IsBounded :
      (i : Inputs W) {p : Ptt} (c : Control W)
      → Truncates
      → IsValid p
      → IsBounded c
      → (c' : Control W) × (p' : Ptt) × (limiter_round d i p c ≡ some (c', p')) × IsBounded c'
  unfolding limiter_round
  limiter_round-IsBounded i {p} c t v h =
      let (p', runs, v', left, same) = limiter_stats_lem c.ts_updated v in
      elim (Bool-cases (leb min_packets (readable p))) [
        | inl many ↦
            let stats = noted c.ts_updated (unread p) no_stats in
            let h1 = react-IsBounded i (ymin_of i.uninitialised stats.span) stats.ndropped c t h in
            rw (many, runs) (_, p', refl, if-IsBounded _ h h1)
        | inr few ↦ rw few (c, p, refl, h)
      ]

  -- For a `double` whose conversion to `uint32_t` gives at most b for three quarters of a `uint32_t`
  -- b, and at most the limit for what lies from 0 to below the limit, which is half the largest
  -- `uint32_t`, and whose quotients of whole numbers and sums of those with whole numbers are not
  -- negative: for rounds that start each from a ring in order, as the other threads left it, every
  -- round ends, `q` holds at most four delays and `y0` is their sum wrapped round to an `int`, and the
  -- bandwidth stays at most the limit if all this was so at the start.
  pub limiter_rounds-IsBounded :
      (rounds : List (Inputs W × Ptt)) (c : Control W)
      → Truncates
      → All (λ (r : Inputs W × Ptt). IsValid r.1) rounds
      → IsBounded c
      → (c' : Control W) × (limiter_rounds d rounds c ≡ some c') × IsBounded c'
  unfolding limiter_rounds
  limiter_rounds-IsBounded [] c t v h = (c, refl, h)
  limiter_rounds-IsBounded ((i, p) ∷ rest) c t v h =
      let (c1, p1, runs, h1) = limiter_round-IsBounded i c t v.0 h in
      let (c', ends, h') = limiter_rounds-IsBounded rest c1 t v.1 h1 in
      (c', rw (runs, limiter_rounds) ends, h')
