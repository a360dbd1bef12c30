-- ===== src/UdpStream/Retransmit.antt =====
-- The timeouts of src/UDPStream.cpp, and `UDPStream::retransmit`: the packets in flight that are older than
-- the timeout are queued again, on one call.
pub mod Copy
pub mod Overdue
pub mod Progress
mod Tests
use adaptive_transport.Common.{
  ℕ, zero, suc, ◌+◌, Bool, true, false, not, ◌&&◌, none, some, List, [], ◌∷◌, ◌==◌, ltb,
  if◌then◌else◌,
}
use adaptive_transport.Common.Number.{Number}
use adaptive_transport.Packet.{Packet}
use adaptive_transport.PacketQueue.{PacketQueue, retransmit_older_than}
use adaptive_transport.RollingStats.{RollingStats, populated, stdev}
use adaptive_transport.UdpStream.Settle.{Outcome, ok, yielding, running, sub_u64}

module _ {W : Type 0} (n : Number W) where
  -- `std::max`.
  abbrev pub larger : W → W → W
  larger a b = if n.lt a b then b else a

  -- The timeout of `receiverEntry`; `to_u64` is the conversion of a `double`.
  unfoldable pub settle_timeout : (W → ℕ) → RollingStats W → ℕ
  settle_timeout to_u64 rtt = to_u64 (
      larger
        (if populated n rtt
          then larger (n.mul rtt.mean (n.of_int 2))
              (n.add rtt.mean (n.mul (n.of_int 3) (stdev n rtt)))
          else n.of_int 1000000)
        (n.of_int 50000))

  -- The timeout of `retransmit`.
  unfoldable pub retransmit_timeout : (W → ℕ) → RollingStats W → ℕ
  retransmit_timeout to_u64 rtt = to_u64 (
      larger (if populated n rtt then n.mul rtt.mean (n.of_int 2) else n.of_int 1000000)
        (n.of_int 10000))

module _ {S : Type 0} (signal : S → S) where
  -- The loop of `retransmit`, with `ndropped`.
  unfoldable pub retransmit_loop : ℕ → PacketQueue S → ℕ → ℕ → Outcome (ℕ × PacketQueue S)
  retransmit_loop zero q ts ndropped = running
  retransmit_loop (suc fuel) q ts ndropped = elim (retransmit_older_than signal q ts) [
    | none ↦ yielding
    | some (false, q') ↦ ok (ndropped, q')
    | some (true, q') ↦ retransmit_loop fuel q' ts (ndropped + 1)
  ]

  -- `UDPStream::retransmit`, at the time `now`.
  unfoldable pub retransmit :
      {W : Type 0} (n : Number W)
      → (W → ℕ)
      → RollingStats W
      → (now : ℕ) → PacketQueue S
      → Outcome (ℕ × PacketQueue S)
  unfolding retransmit_loop retransmit_timeout
  retransmit n to_u64 rtt now q =
      retransmit_loop q.size q (sub_u64 now (retransmit_timeout n to_u64 rtt)) 0
