-- ===== src/UdpStream/Limiter/Control/Loss.antt =====
-- What moves the bandwidth.
use adaptive_transport.Common.{
  ℕ, ◌+◌, ◌%◌, ◌^◌, ◌≤◌, ◌<◌, ◌≡◌, refl, ◌∙◌, Bool, true, false, not, ◌&&◌, [], ◌∷◌, ◌++◌, ltb,
  if◌then◌else◌, length, arith,
}
use adaptive_transport.Common.Int.{ℤ, negsuc, ◌+ℤ◌}
use adaptive_transport.Common.Words.{wrap}
use adaptive_transport.UdpStream.Limiter.Control.{
  Doubles, Control, Inputs, wnd, is_zero, slow_down, change_bandwidth, assess, decide, judge, slide,
  react,
}
use adaptive_transport.UdpStream.Limiter.Control.Bound.{Shrinks}

and_false : (b : Bool) → (b && false) ≡ false
and_false true = refl
and_false false = refl

module _ {W : Type 0} (d : Doubles W) (i : Inputs W) where
  if-holds :
      (P : Control W → Type 0) (b : Bool) (c1 c2 : Control W)
      → P c1
      → P c2
      → P (if b then c1 else c2)
  if-holds P true c1 c2 h1 h2 = h1
  if-holds P false c1 c2 h1 h2 = h2

  decide-lossy : (sc : W) (ndropped : ℕ) (x : W) → 1 < ndropped → decide d sc ndropped x ≡ negsuc 0
  decide-lossy sc ndropped x h =
      let lossy : ltb 1 ndropped ≡ true = ground (arith, h) in rw lossy refl

  change_bandwidth-slow :
      (c : Control W)
      → Shrinks d
      → c.bandwidth < 2 ^ 32
      → c.state ≡ negsuc 0
      → (change_bandwidth d i c).bandwidth ≤ c.bandwidth
  unfolding change_bandwidth slow_down
  change_bandwidth-slow c t small e = rw e (t c.bandwidth small)

  judge-lossy :
      (ndropped : ℕ) (c : Control W)
      → Shrinks d
      → c.bandwidth < 2 ^ 32
      → 1 < ndropped
      → (judge d i ndropped c).bandwidth ≤ c.bandwidth
  unfolding judge assess
  judge-lossy ndropped c t small h =
      let a = assess d i ndropped c in
      let slow : (change_bandwidth d i a).bandwidth ≤ c.bandwidth =
        change_bandwidth-slow a t (omega (arith, small)) (decide-lossy a.sc ndropped i.drawn h) in
      let same : a.bandwidth ≤ c.bandwidth = omega arith in
      if-holds (λ (c' : Control W). c'.bandwidth ≤ c.bandwidth)
        (not (is_zero a.state) && i.update_bandwidth) (change_bandwidth d i a) a slow same

  judge-fixed :
      (ndropped : ℕ) (c : Control W)
      → i.update_bandwidth ≡ false
      → (judge d i ndropped c).bandwidth ≡ c.bandwidth
  unfolding judge assess
  judge-fixed ndropped c e =
      let off : (not (is_zero (assess d i ndropped c).state) && i.update_bandwidth) ≡ false =
        rw e (and_false _) in
      rw off refl

  -- `slide` does not touch the bandwidth.
  bandwidth-slide : (c : Control W) → (slide d c).bandwidth ≡ c.bandwidth
  unfolding slide
  bandwidth-slide c = refl

  -- A round's reaction leaves the bandwidth as it is while `updateBandwidth` is off.
  pub react-fixed :
      (ymin : ℤ) (ndropped : ℕ) (c : Control W)
      → i.update_bandwidth ≡ false
      → (react d i ymin ndropped c).bandwidth ≡ c.bandwidth
  unfolding react
  react-fixed ymin ndropped c off =
      let c1 : Control W = record c {
        iter = (c.iter + 1) % 2 ^ 32;
        q = c.q ++ ymin ∷ [];
        y0 = wrap (c.y0 +ℤ ymin);
      } in
      let slid : (slide d c1).bandwidth ≡ c.bandwidth = bandwidth-slide c1 in
      let short = ltb (length c1.q) wnd in
      let fresh = is_zero (slide d c1).symin1 in
      let judged = judge d i ndropped (slide d c1) in
      let later = if fresh then slide d c1 else judged in
      if-holds (λ (c' : Control W). c'.bandwidth ≡ c.bandwidth) short c1 later refl
        (if-holds (λ (c' : Control W). c'.bandwidth ≡ c.bandwidth) fresh (slide d c1) judged slid
          (judge-fixed ndropped (slide d c1) off ∙ slid))

  -- Where the conversion of three quarters of a `uint32_t` gives at most that number, for a bandwidth
  -- that is a `uint32_t`: a round that reports more than one dropped packet never raises the
  -- bandwidth, whatever number is drawn and whatever the delays are.
  pub react-lossy :
      (ymin : ℤ) (ndropped : ℕ) (c : Control W)
      → Shrinks d
      → c.bandwidth < 2 ^ 32
      → 1 < ndropped
      → (react d i ymin ndropped c).bandwidth ≤ c.bandwidth
  unfolding react
  react-lossy ymin ndropped c t small lossy =
      let c1 : Control W = record c {
        iter = (c.iter + 1) % 2 ^ 32;
        q = c.q ++ ymin ∷ [];
        y0 = wrap (c.y0 +ℤ ymin);
      } in
      let slid : (slide d c1).bandwidth ≡ c.bandwidth = bandwidth-slide c1 in
      let short = ltb (length c1.q) wnd in
      let fresh = is_zero (slide d c1).symin1 in
      let judged = judge d i ndropped (slide d c1) in
      let later = if fresh then slide d c1 else judged in
      let least : c1.bandwidth ≤ c.bandwidth = omega arith in
      let same : (slide d c1).bandwidth ≤ c.bandwidth = omega (arith, slid) in
      let less : judged.bandwidth ≤ c.bandwidth =
        omega
          (arith, slid, judge-lossy ndropped (slide d c1) t (omega (arith, slid, small)) lossy) in
      if-holds (λ (c' : Control W). c'.bandwidth ≤ c.bandwidth) short c1 later least
        (if-holds (λ (c' : Control W). c'.bandwidth ≤ c.bandwidth) fresh (slide d c1) judged same
          less)
