-- ===== src/UdpStream/Limiter/Control.antt =====
-- `UDPStream::limiterEntry`: the bandwidth that follows the delays and the losses. An `int` is the integer
-- that its 32-bit word stands for, and wraps round; `printf` is left out.
pub mod Bound
pub mod Loss
mod Tests
use adaptive_transport.Common.{
  ℕ, zero, suc, ◌+◌, ◌-◌, ◌*◌, ◌/◌, ◌%◌, ◌^◌, Bool, true, false, not, ◌&&◌, Option, none, some,
  List, [], ◌∷◌, ◌++◌, ◌==◌, ltb, leb, if◌then◌else◌, length,
}
use adaptive_transport.Common.Int.{ℤ, pos, negsuc, pos_part, neg_part, sub_ℕ, ◌+ℤ◌, ◌-ℤ◌, ltb_ℤ}
use adaptive_transport.Common.Words.{int_of, wrap}
use adaptive_transport.Common.Number.{Number}
use adaptive_transport.Ptt.{Ptt, readable}
use adaptive_transport.UdpStream.Limiter.{Stats, limiter_stats}

-- The further operations on `double`: its conversions, and the literals in hundredths.
pub record Doubles (W : Type 0) : Type 0 where
  pub number : Number W
  pub of_ℤ : ℤ → W
  pub to_u32 : W → ℕ
  pub hundredths : ℤ → W

-- The locals of `limiterEntry`, with the fields of the stream that it writes. The front of `q` is first; `iter`
-- is a word.
pub record Control (W : Type 0) : Type 0 where
  pub iter : ℕ
  pub q : List ℤ
  pub y0 : ℤ
  pub symin0 : ℤ
  pub symin1 : ℤ
  pub gymin : ℤ
  pub cs : ℤ
  pub sc : W
  pub state : ℤ
  pub bandwidth : ℕ
  pub ts_updated : ℕ

-- What a round reads beside the ring: the two calls of the clock, the number drawn, the two public fields, and
-- what the uninitialised `ymin` holds.
pub record Inputs (W : Type 0) : Type 0 where
  pub reset_time : ℕ
  pub slow_time : ℕ
  pub drawn : W
  pub update_bandwidth : Bool
  pub mtu : ℕ
  pub uninitialised : ℤ

abbrev pub min_packets : ℕ
min_packets = 12

abbrev pub wnd : ℕ
wnd = 4

-- `std::numeric_limits<uint32_t>::max () / 2`.
abbrev pub limit : ℕ
limit = (2 ^ 32 - 1) / 2

-- `/` of C, towards 0.
abbrev pub quotient : ℤ → ℕ → ℤ
quotient (pos a) k = pos (a / k)
quotient (negsuc a) k = sub_ℕ 0 (suc a / k)

abbrev pub magnitude : ℤ → ℕ
magnitude a = pos_part a + neg_part a

abbrev pub is_zero : ℤ → Bool
is_zero a = magnitude a == 0

-- `while (q.size () > wnd)`, with `y0`.
unfoldable pub drain : ℤ → List ℤ → ℤ × List ℤ
drain y0 [] = (y0, [])
drain y0 (y ∷ q) = if ltb wnd (length (y ∷ q)) then drain (wrap (y0 -ℤ y)) q else (y0, y ∷ q)

abbrev pub ymin_of : ℤ → Option (ℕ × ℕ) → ℤ
ymin_of uninitialised none = uninitialised
ymin_of uninitialised (some (ymin, ymax)) = int_of ymin

module _ {W : Type 0} (d : Doubles W) where
  -- The two branches on `state` where the bandwidth may change.
  unfoldable pub slow_down : Inputs W → Control W → Control W
  slow_down i c = record c {
    bandwidth = d.to_u32 (d.number.mul (d.number.of_int c.bandwidth) (d.hundredths (pos 75)));
    cs = pos 0;
    ts_updated = i.slow_time;
  }

  unfoldable pub speed_up : Inputs W → Control W → Control W
  speed_up i c =
      let n = d.number in
      let new_bandwidth =
        n.add (n.of_int c.bandwidth)
          (n.div (n.of_int i.mtu) (n.div (n.of_int (magnitude c.symin0)) (n.of_int 1000000))) in
      record c {
        bandwidth = if n.lt new_bandwidth (n.of_int limit) then d.to_u32 new_bandwidth else limit;
      }

  -- The branch `state && updateBandwidth`.
  unfoldable pub change_bandwidth : Inputs W → Control W → Control W
  unfolding slow_down speed_up
  change_bandwidth i c =
      let c1 = if ltb_ℤ c.state (pos 0) then slow_down i c else c in
      if ltb_ℤ (pos 0) c1.state then speed_up i c1 else c1

  -- `state`, once `sc` is known.
  abbrev pub decide : W → ℕ → W → ℤ
  decide sc ndropped x =
      let slow = if d.number.lt (d.hundredths (pos 20)) sc then negsuc 0 else pos 0 in
      let slower = if ltb 1 ndropped then negsuc 0 else slow in
      if is_zero slower && d.number.lt x (d.hundredths (pos 25)) then pos 1 else slower

  -- The branch `symin1`, up to the change of the bandwidth.
  unfoldable pub assess : Inputs W → ℕ → Control W → Control W
  assess i ndropped c =
      let gymin' = wrap (c.symin0 -ℤ c.symin1) in
      let cs' = wrap (c.cs +ℤ gymin') in
      let sc' = d.number.div (d.of_ℤ cs') (d.of_ℤ c.symin1) in
      let falling = d.number.lt sc' (d.hundredths (negsuc 19)) in
      record c {
        gymin = gymin';
        cs = if falling then pos 0 else cs';
        sc = sc';
        ts_updated = if falling then i.reset_time else c.ts_updated;
        state = decide sc' ndropped i.drawn;
      }

  unfoldable pub judge : Inputs W → ℕ → Control W → Control W
  unfolding assess change_bandwidth
  judge i ndropped c =
      let c1 = assess i ndropped c in
      if not (is_zero c1.state) && i.update_bandwidth then change_bandwidth i c1 else c1

  -- From the loop that drains `q` to the assignment to `symin0`.
  unfoldable pub slide : Control W → Control W
  unfolding drain
  slide c =
      let (y0', q') = drain c.y0 c.q in
      record c { q = q'; y0 = y0'; symin1 = c.symin0; symin0 = quotient y0' wnd }

  -- From `iter++` on.
  unfoldable pub react : Inputs W → ℤ → ℕ → Control W → Control W
  unfolding slide judge
  react i ymin ndropped c =
      let c1 = record c {
        iter = (c.iter + 1) % 2 ^ 32;
        q = c.q ++ ymin ∷ [];
        y0 = wrap (c.y0 +ℤ ymin);
      } in
      let c2 = slide c1 in
      if ltb (length c1.q) wnd then c1 else if is_zero c2.symin1 then c2 else judge i ndropped c2

  -- A round of the loop, on the ring as the other threads left it. `none`: `limiterStats` has not ended.
  unfoldable pub limiter_round : Inputs W → Ptt → Control W → Option (Control W × Ptt)
  unfolding react
  limiter_round i p c =
      if leb min_packets (readable p)
      then elim (limiter_stats c.ts_updated p) [
        | none ↦ none
        | some (s, p') ↦ some (
          if s.nrecv + s.ndropped == 0
              then c
              else react i (ymin_of i.uninitialised s.span) s.ndropped c,
          p',
        )
      ]
      else some (c, p)

  -- Round after round, each with its inputs.
  unfoldable pub limiter_rounds : List (Inputs W × Ptt) → Control W → Option (Control W)
  unfolding limiter_round
  limiter_rounds [] c = some c
  limiter_rounds ((i, p) ∷ rest) c = elim (limiter_round i p c) [
    | none ↦ none
    | some (c', p') ↦ limiter_rounds rest c'
  ]

  -- The locals at the start of `limiterEntry`.
  unfoldable pub control_init : (bandwidth : ℕ) → (ts_updated : ℕ) → Control W
  control_init bandwidth ts_updated = record {
    iter = 0;
    q = [];
    y0 = pos 0;
    symin0 = pos 0;
    symin1 = pos 0;
    gymin = pos 0;
    cs = pos 0;
    sc = d.number.of_int 0;
    state = pos 0;
    bandwidth = bandwidth;
    ts_updated = ts_updated;
  }
