-- ===== src/UdpStream/Send/Cut.antt =====
-- `send` queues the message: packets with consecutive numbers whose payloads are the message.
use adaptive_transport.Common.{
  ℕ, zero, suc, ◌+◌, ◌-◌, ◌%◌, ◌^◌, ◌≤◌, ◌<◌, min, ◌≡◌, refl, sym, ap, inl, inr, Bool-cases, some,
  List, [], ◌∷◌, append-nil, ◌==◌, length, drop, drop_all, arith,
}
use native.Mathlib.Nat.{mod-eq_of_lt}
use adaptive_transport.Common.Bytes.{IsBytes}
use adaptive_transport.Packet.{Packet, mtu}
use adaptive_transport.PacketQueue.View.{in_flight_count, pending_count, pending}
use adaptive_transport.UdpStream.Send.{Sender, send_loop, send}
use adaptive_transport.UdpStream.Send.Queued.{packets, IsReady, Sent}
use adaptive_transport.UdpStream.Send.Round.{
  after, send_round-eq, packet, after-counts, after-IsReady, Sent-cons,
}

module _ {S : Type 0} (signal : S → S) (msg : List ℕ) (bytes : IsBytes msg) where
  -- From a ready sender with a free slot for every packet, the loop queues what is left.
  send_loop-Sent :
      (fuel : ℕ) (s : Sender S) (remaining : ℕ)
      → IsReady s
      → remaining ≤ length msg
      → remaining < fuel
      → in_flight_count s.queue + pending_count s.queue + packets remaining < s.queue.size
      → (s' : Sender S) × (ps : List Packet) × (send_loop signal fuel msg s remaining ≡ some s')
        × Sent s s' (drop (length msg - remaining) msg) ps
  unfolding send_loop
  send_loop-Sent zero s remaining r le enough room = absurd (omega arith)
  send_loop-Sent (suc fuel) s remaining r le enough room = elim (Bool-cases (remaining == 0)) [
    | inl done ↦ (
      s,
      [],
      rw done,
      record {
        ready = r;
        waits = sym (append-nil (pending s.queue));
        flies = refl;
        cut = drop_all (length msg - remaining) msg (ground arith);
        next = omega (arith, r.wraps);
        fits = λ fits. fits;
      },
    )
    | inr more ↦
        let one = after-counts signal msg bytes r remaining le (ground arith) in
        let (s', ps, runs, sent) =
          send_loop-Sent fuel (after signal msg bytes s remaining) (remaining - min remaining mtu)
            (after-IsReady signal msg bytes r remaining le (ground arith)) (omega arith)
            (ground arith) (ground (arith, one)) in
        (
          s',
          packet signal msg bytes r remaining le (ground arith) ∷ ps,
          rw (more, send_round-eq signal msg bytes s remaining r.free) runs,
          Sent-cons signal msg bytes r remaining le (ground arith) sent,
        )
  ]

-- A message of fewer than 2^32 bytes that fits the free slots, in a queue in order whose front slot is
-- free, is sent by one call: the packets that `send` queues behind those that wait carry exactly the
-- message, in order, each with as many bytes as fit, under consecutive sequence numbers; what is in
-- flight stays, and the sender is ready again.
pub send-Sent :
    {S : Type 0} (signal : S → S) (s : Sender S) (msg : List ℕ)
    → IsReady s
    → IsBytes msg
    → length msg < 2 ^ 32
    → in_flight_count s.queue + pending_count s.queue + packets (length msg) < s.queue.size
    → (s' : Sender S) × (ps : List Packet) × (send signal s msg ≡ some s') × Sent s s' msg ps
unfolding send
send-Sent signal s msg r bytes small room = rw fits (
    let (s', ps, runs, sent) =
      send_loop-Sent signal msg bytes (suc (length msg)) s (length msg) r (omega arith)
        (omega arith) room in
    (s', ps, runs, rw (ap (λ (k : ℕ). drop k msg) start) at sent))
  where
    fits : length msg % 2 ^ 32 ≡ length msg
    fits = mod-eq_of_lt small

    start : length msg - length msg ≡ 0
    start = omega arith
