-- ===== src/UdpStream/Session/Settling.antt =====
-- The settling loop at the sending end keeps what holds between the two ends: a packet that it settles
-- is received, or queued again.
use mathlib.Core.List.{map-append}
use adaptive_transport.Common.{
  ℕ, ◌≡◌, sym, ap, subst, ◌⊎◌, inl, inr, Bool-cases, false, List, [], ◌∷◌, ◌++◌, map, arith,
}
use adaptive_transport.Common.Bytes.{All}
use adaptive_transport.Packet.{Packet, seq, wire}
use adaptive_transport.PacketQueue.View.{in_flight, pending}
use adaptive_transport.PacketQueue.Refine.{HasRoom}
use adaptive_transport.PacketQueue.Resend
use adaptive_transport.UdpStream.Receive.{Receiver}
use adaptive_transport.UdpStream.Receive.Complete.{IsKept}
use adaptive_transport.UdpStream.Settle.{Stream, closed, ok, settle}
use adaptive_transport.UdpStream.Settle.Round.{is_lost, IsCausal}
use adaptive_transport.UdpStream.Settle.Effect.{closed_prefix, still_open, only_lost, Settled}
use adaptive_transport.UdpStream.Settle.Progress.{settle_lem}
use adaptive_transport.UdpStream.Session.Datagram.{
  OneOf, OneOf-append, All-append, Carries, number_of,
}
use adaptive_transport.UdpStream.Session.Invariant.{
  numbers, seq-Carries, All-window, IsStamped, Here, Keeps,
}

All-still_open :
    (P : Packet → Type 0) (now timeout : ℕ) (ps : List Packet)
    → All P ps
    → All P (still_open now timeout ps)
unfolding still_open
All-still_open P now timeout [] all = tt
All-still_open P now timeout (p ∷ ps) all = elim (Bool-cases (closed now timeout p)) [
  | inl old ↦ rw old (All-still_open P now timeout ps all.1)
  | inr young ↦ rw young all
]

All-lost :
    (P : Packet → Type 0) (now timeout : ℕ) (ps : List Packet)
    → All P ps
    → All P (only_lost (closed_prefix now timeout ps))
unfolding closed_prefix only_lost
All-lost P now timeout [] all = tt
All-lost P now timeout (p ∷ ps) all = elim (Bool-cases (closed now timeout p)) [
  | inr young ↦ rw young tt
  | inl old ↦ rw old (elim (Bool-cases (is_lost p)) [
    | inl lost ↦ rw lost (all.0, All-lost P now timeout ps all.1)
    | inr kept ↦ rw kept (All-lost P now timeout ps all.1)
  ])
]

IsStamped-not_lost : (p : Packet) → is_lost p ≡ false → IsStamped p
unfolding is_lost
IsStamped-not_lost p e = ground (arith, e)

-- Where what is stamped is received: each packet is received, still in flight or queued again.
settled_cases :
    {B : Type 0} (r : Receiver B) (now timeout k : ℕ) (flying : List Packet)
    → All (λ p. IsStamped p → IsKept r (number_of (wire p))) flying
    → OneOf k (numbers flying)
    → IsKept r k
      ⊎ (OneOf k (numbers (still_open now timeout flying))
          ⊎ OneOf k (numbers (only_lost (closed_prefix now timeout flying))))
unfolding still_open closed_prefix only_lost
settled_cases r now timeout k [] all one = absurd one
settled_cases r now timeout k (p ∷ ps) all one = elim (Bool-cases (closed now timeout p)) [
  | inr young ↦ rw young (inr (inl one))
  | inl old ↦ rw old (elim (Bool-cases (is_lost p)) [
    | inl lost ↦ rw lost (lost_case (settled_cases r now timeout k ps all.1) one)
    | inr kept ↦ rw kept (kept_case (settled_cases r now timeout k ps all.1) kept one)
  ])
]
  where
    Later : Type 0
    Later =
        OneOf k (numbers ps)
        → IsKept r k
          ⊎ (OneOf k (numbers (still_open now timeout ps))
              ⊎ OneOf k (numbers (only_lost (closed_prefix now timeout ps))))

    lost_case :
        Later
        → OneOf k (numbers (p ∷ ps))
        → IsKept r k
          ⊎ (OneOf k (numbers (still_open now timeout ps))
              ⊎ OneOf k (numbers (p ∷ only_lost (closed_prefix now timeout ps))))
    lost_case later (inl same) = inr (inr (inl same))
    lost_case later (inr rest) = elim (later rest) [
      | inl got ↦ inl got
      | inr (inl flies) ↦ inr (inl flies)
      | inr (inr again) ↦ inr (inr (inr again))
    ]

    kept_case :
        Later
        → is_lost p ≡ false
        → OneOf k (numbers (p ∷ ps))
        → IsKept r k
          ⊎ (OneOf k (numbers (still_open now timeout ps))
              ⊎ OneOf k (numbers (only_lost (closed_prefix now timeout ps))))
    kept_case later kept (inl same) =
        inl (subst (IsKept r) (sym same) (all.0 (IsStamped-not_lost p kept)))
    kept_case later kept (inr rest) = later rest

-- What is stamped, by the numbers that the bytes hold.
by_bytes :
    {B : Type 0} (r : Receiver B) (text : List ℕ) (ps flying : List Packet)
    → All (λ p. (Carries ps (wire p) → seq p ≡ number_of (wire p))) flying
    → All (Carries ps) (map wire flying)
    → All (λ p. IsStamped p → IsKept r (seq p)) flying
    → All (λ p. IsStamped p → IsKept r (number_of (wire p))) flying
by_bytes r text ps [] read carried stamped = tt
by_bytes r text ps (p ∷ flying) read carried stamped = (
  λ e. subst (IsKept r) (read.0 carried.0) (stamped.0 e),
  by_bytes r text ps flying read.1 carried.1 stamped.1,
)

All-wires :
    (P : List ℕ → Type 0) (ps : List Packet) → All (λ p. P (wire p)) ps → All P (map wire ps)
All-wires P [] all = tt
All-wires P (p ∷ ps) all = (all.0, All-wires P ps all.1)

wires-All :
    (P : List ℕ → Type 0) (ps : List Packet) → All P (map wire ps) → All (λ p. P (wire p)) ps
wires-All P [] all = tt
wires-All P (p ∷ ps) all = (all.0, wires-All P ps all.1)

module _ {S R : Type 0} (signal : S → S) (observe : R → ℕ → R) (now timeout : ℕ) (s : Stream S R)
    {to : Stream S R} {dseq : ℕ} {datagrams : List (List ℕ)} {text : List ℕ} {ps : List Packet}
    (h : Here s.queue dseq datagrams text ps) (room : HasRoom s.queue)
    (causal : All IsCausal (in_flight s.queue))
    (runs : settle signal observe s.queue.size now timeout s ≡ ok to) where
  flying : List Packet
  flying = in_flight s.queue

  settled : Settled observe now timeout s to (in_flight s.queue)
  settled =
      let ready : Resend.IsReady s.queue = record {
        valid = h.ready.valid;
        free = h.ready.free;
        room = room;
        slots = h.ready.slots;
        fits = h.fits;
      } in
      let (s1, runs1, done) = settle_lem signal observe now timeout s ready causal in
      let same : s1 ≡ to = cc (runs, runs1) in
      subst (λ x. Settled observe now timeout s x (in_flight s.queue)) same done

  pub settles-Here : Here to.queue dseq datagrams text ps
  settles-Here = record {
    ready = record {
      valid = settled.ready.valid;
      free = settled.ready.free;
      slots = settled.ready.slots;
      wraps = h.ready.wraps;
    };
    fits = settled.ready.fits;
    numbered = h.numbered;
    counted = h.counted;
    few = h.few;
    waits = rw settled.waits (
        All-append (Carries ps) (map wire (pending s.queue)) _ h.waits (
          All-wires (Carries ps) _ (
            All-lost (λ p. Carries ps (wire p)) now timeout _ (wires-All (Carries ps) _ h.flies))));
    flies = rw settled.flies (
        All-wires (Carries ps) _ (
          All-still_open (λ p. Carries ps (wire p)) now timeout _
            (wires-All (Carries ps) _ h.flies)));
    sent = h.sent;
  }

  read_numbers : All (λ p. (Carries ps (wire p) → seq p ≡ number_of (wire p))) (in_flight s.queue)
  unfolding in_flight
  read_numbers =
      All-window (λ p. (Carries ps (wire p) → seq p ≡ number_of (wire p))) s.queue.buf s.queue.size
        _ _ (λ i c. seq-Carries ps text h.numbered (h.ready.slots i) (h.fits i) c)

  pub settles-Keeps : {B : Type 0} {r : Receiver B} {n : ℕ} → Keeps s.queue r n → Keeps to.queue r n
  settles-Keeps {B} {r} {n} keeps = record {
    stamped =
        rw settled.flies
          (All-still_open (λ p. IsStamped p → IsKept r (seq p)) now timeout _ keeps.stamped);
    covered = λ k lo hi.
        rw (settled.flies, ap (map number_of) settled.waits, map-append)
          (covered k (keeps.covered k lo hi));
  }
    where
      lost : List Packet
      lost = only_lost (closed_prefix now timeout (in_flight s.queue))

      covered :
          (k : ℕ)
          → IsKept r k
            ⊎ (OneOf k (numbers (in_flight s.queue)) ⊎ OneOf k (numbers (pending s.queue)))
          → IsKept r k
            ⊎ (OneOf k (numbers (still_open now timeout (in_flight s.queue)))
                ⊎ OneOf k (numbers (pending s.queue) ++ numbers lost))
      covered k (inl kept) = inl kept
      covered k (inr (inr waits)) =
          inr (inr (OneOf-append k (numbers (pending s.queue)) (numbers lost) (inl waits)))
      covered k (inr (inl flies)) =
          elim (settled_cases r now timeout k (in_flight s.queue)
            (by_bytes r text ps (in_flight s.queue) read_numbers h.flies keeps.stamped) flies) [
              | inl kept ↦ inl kept
              | inr (inl still) ↦ inr (inl still)
              | inr (inr again) ↦
                  inr (inr (OneOf-append k (numbers (pending s.queue)) (numbers lost) (inr again)))
            ]
