-- ===== src/UdpStream/Settle/Stale.antt =====
-- A slot of the ring is used again with the ack time of the packet that it held before: neither `send`
-- nor the sender's thread resets it.
use adaptive_transport.Common.{ℕ, suc, ◌<◌, ◌≡◌, ◌≢◌, refl, true, List, ◌∷◌, ltb, arith}
use adaptive_transport.Packet.{Packet, set_seq, set_is_ack, set_size, copy_payload, set_ts_sent}
use adaptive_transport.PacketQueue.View.{in_flight, InOrder}
use adaptive_transport.PacketQueue.Search.{unacked-cons}
use adaptive_transport.UdpStream.Send.{fill}
use adaptive_transport.UdpStream.Settle.{
  Stream, aborted, impossible, is_set, closed, on_metadata, retransmit_if_lost, settle_one, settle,
}

-- Filling and sending a slot leave both receive times of its former packet.
refill-keeps :
    (msg : List ℕ) (dseq remaining now : ℕ) (old : Packet)
    → let p = set_ts_sent (fill msg dseq remaining old) now in
      (p.ts_ack ≡ old.ts_ack) × (p.ts_recv ≡ old.ts_recv) × (p.ts_sent ≡ now)
unfolding set_ts_sent fill copy_payload set_size set_is_ack set_seq
refill-keeps msg dseq remaining now old = (refl, refl, refl)

-- Where the oldest packet in flight bears an ack time that is earlier than its sending, the loop aborts.
settle-aborts :
    {S R : Type 0} (signal : S → S) (observe : R → ℕ → R) (fuel now timeout : ℕ) (s : Stream S R)
    {p : Packet} {ps : List Packet}
    → InOrder s.queue
    → in_flight s.queue ≡ p ∷ ps
    → p.ts_ack ≢ 0
    → p.ts_ack < p.ts_sent
    → settle signal observe (suc fuel) now timeout s ≡ aborted impossible
unfolding settle settle_one closed retransmit_if_lost on_metadata
settle-aborts signal observe fuel now timeout s {p} v e acked early =
    let (found, some_sent, oldest, rest) = unacked-cons v e in
    let set : is_set (s.queue.buf s.queue.unacked_idx).ts_ack ≡ true = rw oldest (ground arith) in
    let before : ltb (s.queue.buf s.queue.unacked_idx).ts_ack
          (s.queue.buf s.queue.unacked_idx).ts_sent
        ≡ true =
      rw oldest (ground arith) in
    rw (found, settle) (ground (arith, set, before))

-- A slot whose former packet was acked, that `send` fills again and the sender's thread stamps with a
-- later time, makes the loop abort with "Impossible!" as soon as it is the oldest packet in flight,
-- whatever the timeout is, unless an ack has overwritten its times.
pub reuse-aborts :
    {S R : Type 0} (signal : S → S) (observe : R → ℕ → R) (fuel now timeout : ℕ) (s : Stream S R)
    (msg : List ℕ) (dseq remaining sent_at : ℕ) (old : Packet) {ps : List Packet}
    → InOrder s.queue
    → in_flight s.queue ≡ set_ts_sent (fill msg dseq remaining old) sent_at ∷ ps
    → old.ts_ack ≢ 0
    → old.ts_ack < sent_at
    → settle signal observe (suc fuel) now timeout s ≡ aborted impossible
reuse-aborts signal observe fuel now timeout s msg dseq remaining sent_at old v e acked early =
    let (same, _, stamp) = refill-keeps msg dseq remaining sent_at old in
    settle-aborts signal observe fuel now timeout s v e (rw same acked) (rw (same, stamp) early)
