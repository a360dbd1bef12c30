-- ===== src/UdpStream/Settle/Progress.antt =====
-- The loop ends, settles exactly the closed packets at the head of those in flight, and queues again
-- exactly those of them that are lost.
use adaptive_transport.Common.{
  ℕ, zero, suc, ◌-◌, ◌≤◌, ◌<◌, ◌≡◌, ◌≢◌, refl, ap, ◌∙◌, true, false, ◌||◌, inl, inr, Bool-cases,
  List, [], ◌∷◌, ◌++◌, ltb, if◌then◌else◌, length, arith,
}
use adaptive_transport.Common.Bytes.{All}
use adaptive_transport.Packet.{Packet}
use adaptive_transport.PacketQueue.{PacketQueue, front_next, unacked_next}
use adaptive_transport.PacketQueue.View.{in_flight, length-in_flight}
use adaptive_transport.PacketQueue.Search.{unacked-nil, unacked-cons}
use adaptive_transport.PacketQueue.Enqueue.{front-free, enqueue}
use adaptive_transport.PacketQueue.Resend.{IsCopyOf, IsReady, again, again-oldest, again-Resent}
use adaptive_transport.UdpStream.Settle.{
  Stream, Metadata, Outcome, ok, is_set, too_old, closed, copy_lost, on_metadata, metadata_of,
  queue_again, retransmit_if_lost, settle_one, settle, ◌>>=◌,
}
use adaptive_transport.UdpStream.Settle.Round.{
  is_lost, IsCausal, Round, copy_lost-IsCopyOf, settle-Round, resend-Round,
}
use adaptive_transport.UdpStream.Settle.Effect.{
  measure, Settled, Settled-nil, Settled-open, Settled-cons,
}

module _ {S R : Type 0} (signal : S → S) (observe : R → ℕ → R) (now timeout : ℕ) where
  -- The stream after `onMetadata` has returned.
  abbrev noted : Stream S R → Metadata → Stream S R
  noted s m = record s {
    rtt = if is_set m.ts_ack then observe s.rtt (m.ts_ack - m.ts_sent) else s.rtt;
    log = s.log ++ m ∷ [];
  }

  on_metadata-ok :
      (s : Stream S R) (m : Metadata)
      → (is_set m.ts_ack ≡ true → m.ts_sent ≤ m.ts_ack)
      → on_metadata observe s m ≡ ok (noted s m)
  unfolding on_metadata
  on_metadata-ok s m causal = elim (Bool-cases (is_set m.ts_ack)) [
    | inl acked ↦
        let in_time : ltb m.ts_ack m.ts_sent ≡ false = ground (arith, causal acked) in
        rw (acked, in_time)
    | inr other ↦ rw other
  ]

  retransmit-settled :
      (q : PacketQueue S) (p : Packet)
      → is_lost p ≡ false
      → retransmit_if_lost signal now timeout q p ≡ ok q
  unfolding retransmit_if_lost is_lost
  retransmit-settled q p here = ground arith

  retransmit-lost :
      (q : PacketQueue S) (p : Packet)
      → q.front_used ≡ false
      → is_lost p ≡ true
      → closed now timeout p ≡ true
      → retransmit_if_lost signal now timeout q p ≡ ok (enqueue signal q (copy_lost p))
  unfolding retransmit_if_lost is_lost closed
  retransmit-lost q p free here old =
      let first : (is_set p.ts_ack || is_set p.ts_recv) ≡ false = ground arith in
      let second : too_old now timeout p ≡ true = ground arith in
      rw (first, second) (ap (queue_again signal p) (front-free q free))

  -- The body for the oldest packet, once the queue after the retransmission is known.
  settle_one-eq :
      (s : Stream S R) (q1 : PacketQueue S) (u : ℕ)
      → retransmit_if_lost signal now timeout s.queue (s.queue.buf u) ≡ ok q1
      → q1.buf u ≡ s.queue.buf u
      → IsCausal (s.queue.buf u)
      → settle_one signal observe now timeout s u
        ≡ ok (record (noted s (metadata_of (s.queue.buf u))) { queue = unacked_next q1 })
  unfolding settle_one
  settle_one-eq s q1 u queued same causal =
      ap (λ (o : Outcome (PacketQueue S)). o >>= note) queued
      ∙ ap (λ (p : Packet). on_metadata observe (record s { queue = q1 }) (metadata_of p) >>= leave)
          same
      ∙ ap (λ (o : Outcome (Stream S R)). o >>= leave)
          (on_metadata-ok (record s { queue = q1 }) (metadata_of (s.queue.buf u)) causal)
    where
      leave : Stream S R → Outcome (Stream S R)
      leave s1 = ok (record s1 { queue = unacked_next s1.queue })

      note : PacketQueue S → Outcome (Stream S R)
      note q = on_metadata observe (record s { queue = q }) (metadata_of (q.buf u)) >>= leave

  -- One round of the loop: it goes on with the queue of `Round`, and the callback has been given the
  -- packet's metadata.
  settle_one-Round :
      (s : Stream S R)
      → IsReady s.queue
      → s.queue.unacked_idx ≢ s.queue.tx_idx
      → closed now timeout (s.queue.buf s.queue.unacked_idx) ≡ true
      → IsCausal (s.queue.buf s.queue.unacked_idx)
      → (s' : Stream S R) × (settle_one signal observe now timeout s s.queue.unacked_idx ≡ ok s')
        × Round s.queue s'.queue (s.queue.buf s.queue.unacked_idx)
        × (s'.log ≡ s.log ++ metadata_of (s.queue.buf s.queue.unacked_idx) ∷ [])
        × (s'.rtt ≡ measure observe s.rtt (s.queue.buf s.queue.unacked_idx))
  settle_one-Round s r some_sent old causal =
      let copy : IsCopyOf (s.queue.buf s.queue.unacked_idx)
          (copy_lost (s.queue.buf s.queue.unacked_idx)) =
        copy_lost-IsCopyOf (r.slots s.queue.unacked_idx) (r.fits s.queue.unacked_idx) in
      elim (Bool-cases (is_lost (s.queue.buf s.queue.unacked_idx))) [
        | inl here ↦ (
          record (noted s (metadata_of (s.queue.buf s.queue.unacked_idx))) {
            queue = unacked_next (again signal r some_sent copy);
          },
          settle_one-eq s (again signal r some_sent copy) s.queue.unacked_idx
              (retransmit-lost s.queue _ r.free here old)
              (unfold front_next in again-oldest signal r some_sent copy) causal,
          resend-Round here (again-Resent signal r some_sent copy),
          refl,
          unfold measure in refl,
        )
        | inr kept ↦ (
          record (noted s (metadata_of (s.queue.buf s.queue.unacked_idx))) {
            queue = unacked_next s.queue;
          },
          settle_one-eq s s.queue s.queue.unacked_idx (retransmit-settled s.queue _ kept) refl
              causal,
          settle-Round r some_sent kept,
          refl,
          unfold measure in refl,
        )
      ]

  settle-Settled :
      (fuel : ℕ) (s : Stream S R) (flying : List Packet)
      → IsReady s.queue
      → in_flight s.queue ≡ flying
      → length flying < fuel
      → All IsCausal flying
      → (s' : Stream S R) × (settle signal observe fuel now timeout s ≡ ok s')
        × Settled observe now timeout s s' flying
  unfolding settle
  settle-Settled zero s flying r e enough causal = absurd (omega arith)
  settle-Settled (suc fuel) s [] r e enough causal =
      let none_left = unacked-nil r.valid.ordered e in
      (s, rw (none_left, settle), Settled-nil observe now timeout s r e)
  settle-Settled (suc fuel) s (p ∷ ps) r e enough causal =
      let (found, some_sent, oldest, rest) = unacked-cons r.valid.ordered e in
      elim (Bool-cases (closed now timeout p)) [
        | inr young ↦
            let young' : closed now timeout (s.queue.buf s.queue.unacked_idx) ≡ false =
              rw oldest young in
            (s, rw (found, settle, young'), Settled-open observe now timeout s p ps r e young)
        | inl old ↦
            let old' : closed now timeout (s.queue.buf s.queue.unacked_idx) ≡ true =
              rw oldest old in
            let causal' : IsCausal (s.queue.buf s.queue.unacked_idx) = rw oldest causal.0 in
            let (s1, runs, round, logged, measured) = settle_one-Round s r some_sent old' causal' in
            let flies1 : in_flight s1.queue ≡ ps = cc (e, round.settled, oldest) in
            let (s', runs', settled) =
              settle-Settled fuel s1 ps round.ready flies1 (omega arith) causal.1 in
            (
              s',
              rw (found, settle, old', runs) runs',
              Settled-cons observe now timeout p ps old (rw oldest at round.waits)
                  (rw oldest at logged) (rw oldest at measured) settled,
            )
      ]

-- For a queue in order, with its front slot free and room for one more packet, and acks stamped no
-- earlier than the packets were sent, the loop ends without `abort ()` and without waiting, within as
-- many rounds as the ring has slots; the packets in flight are then those from the first open one on,
-- behind the packets that waited the lost ones among those settled wait again with the same bytes for
-- the wire, the callback was given the metadata of each settled packet once, oldest first, and the
-- statistics the round-trip time of each acked one.
pub settle_lem :
    {S R : Type 0} (signal : S → S) (observe : R → ℕ → R) (now timeout : ℕ) (s : Stream S R)
    → IsReady s.queue
    → All IsCausal (in_flight s.queue)
    → (s' : Stream S R) × (settle signal observe s.queue.size now timeout s ≡ ok s')
      × Settled observe now timeout s s' (in_flight s.queue)
settle_lem signal observe now timeout s r causal =
    settle-Settled signal observe now timeout s.queue.size s (in_flight s.queue) r refl
      (omega (arith, length-in_flight s.queue, r.valid.ordered.order)) causal
