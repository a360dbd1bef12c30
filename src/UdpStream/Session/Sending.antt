-- ===== src/UdpStream/Session/Sending.antt =====
-- `send` at the sending end keeps what holds between the two ends.
use mathlib.Core.List.{map-append}
use adaptive_transport.Common.{
  ℕ, ◌+◌, ◌^◌, ◌≤◌, ◌<◌, ◌≡◌, ap, subst, ◌⊎◌, inl, inr, some, List, [], ◌∷◌, ◌++◌, map, length,
  length-append, arith, dec_le,
}
use adaptive_transport.Common.Bytes.{IsBytes}
use adaptive_transport.Packet.{Packet, wire}
use adaptive_transport.PacketQueue.{PacketQueue}
use adaptive_transport.PacketQueue.View.{
  in_flight_count, pending_count, in_flight, pending, length-pending,
}
use adaptive_transport.UdpStream.Send.{Sender, send}
use adaptive_transport.UdpStream.Send.Queued.{packets, Sent}
use adaptive_transport.UdpStream.Send.Cut.{send-Sent}
use adaptive_transport.UdpStream.Receive.{Receiver}
use adaptive_transport.UdpStream.Receive.Complete.{IsKept}
use adaptive_transport.UdpStream.Numbered.{Numbered, Cut-Numbered, Numbered-append}
use adaptive_transport.UdpStream.Session.Datagram.{
  OneOf, OneOf-append, All-append, All-map, Carries, Carries-append, All-Carries, seq-wire,
}
use adaptive_transport.UdpStream.Session.Invariant.{numbers, numbers-append, Here, Keeps}

-- Consecutive packets have each number of their range.
Numbered-OneOf :
    (dseq : ℕ) (bytes : List ℕ) (ps : List Packet) (k : ℕ)
    → Numbered dseq bytes ps
    → dseq + length ps ≤ 2 ^ 31
    → dseq ≤ k
    → k < dseq + length ps
    → OneOf k (numbers ps)
Numbered-OneOf dseq bytes [] k numbered small lo hi = absurd (omega arith)
Numbered-OneOf dseq bytes (p ∷ ps) k (first, rest, whole, d, numbered) small lo hi =
    elim (dec_le k dseq) [
      | yes here ↦ inl (omega (arith, d.number, seq-wire p (omega (arith, d.length_of))))
      | no later ↦
          inr
            (Numbered-OneOf (dseq + 1) rest ps k numbered (omega arith) (omega arith) (omega arith))
    ]

module _ {S : Type 0} (signal : S → S) {q : PacketQueue S} {dseq : ℕ} {datagrams : List (List ℕ)}
    {text : List ℕ} {ps : List Packet} (h : Here q dseq datagrams text ps) (msg : List ℕ)
    {to : Sender S} (bytes : IsBytes msg) (small : length msg < 2 ^ 32)
    (room : in_flight_count q + pending_count q + packets (length msg) < q.size)
    (runs : send signal (record { queue = q; dseq = dseq }) msg ≡ some to)
    (last : to.dseq ≤ 2 ^ 31) where
  sent : (qs : List Packet) × Sent (record { queue = q; dseq = dseq }) to msg qs
  sent =
      let from : Sender S = record { queue = q; dseq = dseq } in
      let (s1, qs, runs1, sent1) = send-Sent signal from msg h.ready bytes small room in
      let same : s1 ≡ to = cc (runs, runs1) in (qs, subst (λ s2. Sent from s2 msg qs) same sent1)

  -- The packets of the message.
  pub added : List Packet
  unfolding sent
  added = sent.0

  counts : (to.dseq ≡ 1 + length (ps ++ added)) × (length (ps ++ added) < 2 ^ 31)
  unfolding added
  counts =
      let few : length sent.0 ≤ 8192 = omega (
        arith,
        ap length sent.1.waits,
        length-append (pending q) sent.0,
        length-pending to.queue,
        sent.1.ready.valid.ordered.order,
        sent.1.ready.valid.few,
      ) in
      omega (arith, sent.1.next, h.counted, h.few, length-append ps sent.0)

  added-Numbered : Numbered (1 + length ps) msg added
  unfolding added
  added-Numbered =
      Cut-Numbered (1 + length ps) msg sent.0 (rw h.counted at sent.1.cut)
        (omega (arith, counts, length-append ps added))

  pub sends-Here : Here to.queue to.dseq datagrams (text ++ msg) (ps ++ added)
  unfolding added
  sends-Here = record {
    ready = sent.1.ready;
    fits = sent.1.fits h.fits;
    numbered = Numbered-append 1 text msg ps sent.0 h.numbered added-Numbered;
    counted = counts.0;
    few = counts.1;
    waits =
        rw (sent.1.waits, map-append)
          (All-append (Carries (ps ++ sent.0)) (map wire (pending q)) (map wire sent.0)
            (All-map (Carries ps) (Carries (ps ++ sent.0)) (Carries-append ps sent.0) _ h.waits)
            (All-Carries ps sent.0));
    flies =
        rw sent.1.flies
          (All-map (Carries ps) (Carries (ps ++ sent.0)) (Carries-append ps sent.0) _ h.flies);
    sent = All-map (Carries ps) (Carries (ps ++ sent.0)) (Carries-append ps sent.0) _ h.sent;
  }

  pub sends-Keeps :
      {B : Type 0} {r : Receiver B}
      → Keeps q r (length ps)
      → Keeps to.queue r (length (ps ++ added))
  unfolding added
  sends-Keeps {B} {r} keeps = record {
    stamped = rw sent.1.flies keeps.stamped;
    covered = λ k lo hi. rw (sent.1.waits, sent.1.flies, numbers-append) (covered k lo hi);
  }
    where
      covered :
          (k : ℕ)
          → 1 ≤ k
          → k ≤ length (ps ++ sent.0)
          → IsKept r k
            ⊎ (OneOf k (numbers (in_flight q)) ⊎ OneOf k (numbers (pending q) ++ numbers sent.0))
      covered k lo hi = elim (dec_le k (length ps)) [
        | yes old ↦ elim (keeps.covered k lo old) [
          | inl kept ↦ inl kept
          | inr (inl flies) ↦ inr (inl flies)
          | inr (inr waits) ↦
              inr (inr (OneOf-append k (numbers (pending q)) (numbers sent.0) (inl waits)))
        ]
        | no later ↦ inr (
            inr (
              OneOf-append k (numbers (pending q)) (numbers sent.0) (
                inr (
                  Numbered-OneOf (1 + length ps) msg sent.0 k added-Numbered
                    (omega (arith, counts, length-append ps sent.0)) (omega arith)
                    (omega (arith, length-append ps sent.0))))))
      ]
