-- ===== src/UdpStream/Session/Transmitting.antt =====
-- A round of the sender's thread keeps what holds between the two ends.
use mathlib.Core.List.{map-append}
use adaptive_transport.Common.{
  ℕ, ◌+◌, ◌≤◌, ◌≡◌, ◌≢◌, refl, sym, ap, subst, ◌∙◌, ◌⊎◌, inl, inr, Bool-cases, some, List, [], ◌∷◌,
  ◌++◌, map, ◌==◌, update, arith,
}
use adaptive_transport.Packet.{Packet, mtu, set_ts_sent, seq, wire}
use adaptive_transport.Packet.Header
use adaptive_transport.PacketQueue.{PacketQueue, Wake, tx, slot, tx_next, modify}
use adaptive_transport.PacketQueue.View.{in_flight, pending}
use adaptive_transport.PacketQueue.Search.{tx_slot}
use adaptive_transport.PacketQueue.Invariant.{tx_next-IsValid}
use adaptive_transport.PacketQueue.Reach.{stamps-IsValid}
use adaptive_transport.UdpStream.Receive.{Receiver}
use adaptive_transport.UdpStream.Receive.Complete.{IsKept}
use adaptive_transport.UdpStream.Transmit.{Link, hold, send_slot, transmit}
use adaptive_transport.UdpStream.Transmit.Effect.{send_lem, wire-set_ts_sent}
use adaptive_transport.UdpStream.Session.{IsUnstamped}
use adaptive_transport.UdpStream.Session.Datagram.{OneOf, OneOf-append, All-append, Carries}
use adaptive_transport.UdpStream.Session.Invariant.{numbers, numbers-append, IsStamped, Here, Keeps}

pub transmit-eq :
    {S : Type 0} (signal : S → S) (credit : ℕ → ℕ → ℕ → ℕ) (wakes : List (Wake S))
    (tries : List (ℕ × ℕ)) (now : ℕ) (l : Link S) {q : PacketQueue S} {i ts_last : ℕ}
    → tx l.queue wakes ≡ slot i q
    → hold credit l.ts_last (q.buf i).size tries ≡ some ts_last
    → transmit credit signal wakes tries now l ≡ some (send_slot signal now l q i ts_last)
unfolding transmit
transmit-eq signal credit wakes tries now l taken passes = rw (taken, transmit, passes) refl

module _ {S : Type 0} (signal : S → S) (now : ℕ) {q : PacketQueue S} {dseq : ℕ}
    {datagrams : List (List ℕ)} {text : List ℕ} {ps : List Packet}
    (h : Here q dseq datagrams text ps) (some_wait : q.tx_idx ≢ q.front_idx) where
  stamp_now : Packet → Packet
  stamp_now p = set_ts_sent p now

  gone : PacketQueue S
  unfolding stamp_now
  gone = tx_next signal (modify q q.tx_idx stamp_now)

  next_packet : Packet
  next_packet = q.buf q.tx_idx

  -- The lists of packets after the round.
  moved :
      (pending q ≡ next_packet ∷ pending gone)
      × (in_flight gone ≡ in_flight q ++ stamp_now next_packet ∷ [])
  unfolding gone next_packet
  moved = send_lem signal h.ready.valid.ordered some_wait stamp_now

  same_wire : wire (stamp_now next_packet) ≡ wire next_packet
  unfolding stamp_now
  same_wire = wire-set_ts_sent next_packet now

  slot-Header : (i : ℕ) → Header.IsValid (gone.buf i)
  unfolding gone stamp_now tx_next set_ts_sent
  slot-Header i = elim (Bool-cases (i == q.tx_idx)) [
    | inl at ↦ rw at (let v = h.ready.slots q.tx_idx in record { full = v.full; bytes = v.bytes })
    | inr other ↦ rw other (h.ready.slots i)
  ]

  slot-fits : (i : ℕ) → (gone.buf i).size ≤ mtu + 4
  unfolding gone stamp_now tx_next set_ts_sent
  slot-fits i = ground (arith, h.fits i, h.fits q.tx_idx)

  next_Carries : Carries ps (wire next_packet)
  next_Carries = (rw (moved.0) at h.waits).0

  transmits-Here : Here gone dseq (datagrams ++ wire (stamp_now next_packet) ∷ []) text ps
  transmits-Here = record {
    ready = record {
      valid =
          unfold gone stamp_now in
          tx_next-IsValid signal
            (stamps-IsValid signal q q.tx_idx (λ p. set_ts_sent p now)
              (λ p. unfold set_ts_sent in refl) h.ready.valid)
            some_wait;
      free = unfold gone tx_next in h.ready.free;
      slots = slot-Header;
      wraps = h.ready.wraps;
    };
    fits = slot-fits;
    numbered = h.numbered;
    counted = h.counted;
    few = h.few;
    waits = (rw (moved.0) at h.waits).1;
    flies =
        rw (moved.1, map-append)
          (All-append (Carries ps) (map wire (in_flight q)) (wire (stamp_now next_packet) ∷ [])
            h.flies (rw same_wire next_Carries, tt));
    sent =
        All-append (Carries ps) datagrams (wire (stamp_now next_packet) ∷ []) h.sent
          (rw same_wire next_Carries, tt);
  }

  transmits-Keeps :
      {B : Type 0} {r : Receiver B} {n : ℕ} → IsUnstamped next_packet → Keeps q r n → Keeps gone r n
  transmits-Keeps {B} {r} {n} unstamped keeps = record {
    stamped = rw (moved.1) (
        All-append (λ p. IsStamped p → IsKept r (seq p)) (in_flight q) (stamp_now next_packet ∷ [])
          keeps.stamped
          (unfold stamp_now set_ts_sent in (λ e. absurd (ground (arith, e, unstamped)), tt)));
    covered = λ k lo hi. rw (moved.1, numbers-append) (covered k (keeps.covered k lo hi));
  }
    where
      covered :
          (k : ℕ)
          → IsKept r k ⊎ (OneOf k (numbers (in_flight q)) ⊎ OneOf k (numbers (pending q)))
          → IsKept r k
            ⊎ (OneOf k (numbers (in_flight q) ++ numbers (stamp_now next_packet ∷ []))
                ⊎ OneOf k (numbers (pending gone)))
      covered k (inl kept) = inl kept
      covered k (inr (inl flies)) = inr (
          inl (
            OneOf-append k (numbers (in_flight q)) (numbers (stamp_now next_packet ∷ []))
              (inl flies)))
      covered k (inr (inr waits)) = elim (rw (moved.0) at waits) [
        | inl now_sent ↦ inr (
            inl (
              OneOf-append k (numbers (in_flight q)) (numbers (stamp_now next_packet ∷ []))
                (inr (inl (rw same_wire now_sent)))))
        | inr still ↦ inr (inr still)
      ]

-- The round as the code makes it.
module _ {S : Type 0} (signal : S → S) (credit : ℕ → ℕ → ℕ → ℕ) (wakes : List (Wake S))
    (tries : List (ℕ × ℕ)) (now : ℕ) (l : Link S) {to : Link S} {i ts_last dseq : ℕ} {text : List ℕ}
    {ps : List Packet} (h : Here l.queue dseq l.sent text ps)
    (taken : tx l.queue wakes ≡ slot i l.queue)
    (passes : hold credit l.ts_last (l.queue.buf i).size tries ≡ some ts_last)
    (runs : transmit credit signal wakes tries now l ≡ some to) where
  some_wait : l.queue.tx_idx ≢ l.queue.front_idx
  some_wait = (tx_slot l.queue wakes taken).1

  effect :
      (gone signal now h some_wait ≡ to.queue)
      × (l.sent ++ wire (stamp_now signal now h some_wait (next_packet signal now h some_wait)) ∷ []
          ≡ to.sent)
  unfolding gone stamp_now next_packet send_slot
  effect =
      let at : i ≡ l.queue.tx_idx = (tx_slot l.queue wakes taken).0 in
      let found : send_slot signal now l l.queue i ts_last ≡ to =
        cc (runs, transmit-eq signal credit wakes tries now l taken passes) in
      let ends : send_slot signal now l l.queue l.queue.tx_idx ts_last ≡ to = rw at at found in
      let written : update l.queue.buf l.queue.tx_idx (set_ts_sent (l.queue.buf l.queue.tx_idx) now)
            l.queue.tx_idx
          ≡ set_ts_sent (l.queue.buf l.queue.tx_idx) now =
        ground arith in
      (
        ap (λ (x : Link S). x.queue) ends,
        ap (λ (p : Packet). l.sent ++ wire p ∷ []) (sym written) ∙ ap (λ (x : Link S). x.sent) ends,
      )

  pub transmitted-Here : Here to.queue dseq to.sent text ps
  transmitted-Here =
      subst (λ x. Here x dseq to.sent text ps) effect.0
        (subst (λ x. Here (gone signal now h some_wait) dseq x text ps) effect.1
          (transmits-Here signal now h some_wait))

  pub transmitted-Keeps :
      {B : Type 0} {r : Receiver B} {n : ℕ}
      → IsUnstamped (l.queue.buf i)
      → Keeps l.queue r n
      → Keeps to.queue r n
  transmitted-Keeps {B} {r} {n} unstamped keeps =
      subst (λ x. Keeps x r n) effect.0
        (transmits-Keeps signal now h some_wait
          (unfold next_packet in rw (tx_slot l.queue wakes taken).0 at unstamped) keeps)
