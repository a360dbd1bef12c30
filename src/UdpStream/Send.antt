-- ===== src/UdpStream/Send.antt =====
-- `UDPStream::send`: a message cut into packets of at most `Packet::MTU` bytes.
pub mod Fill
pub mod Queued
mod Round
pub mod Cut
mod Tests
use adaptive_transport.Common.{
  ℕ, zero, suc, ◌+◌, ◌-◌, ◌%◌, ◌^◌, min, false, Option, none, some, List, ◌==◌, if◌then◌else◌, take,
  drop, length,
}
use adaptive_transport.Packet.{Packet, mtu, set_seq, set_is_ack, set_size, copy_payload}
use adaptive_transport.PacketQueue.{PacketQueue, modify, front, front_next}

-- The fields that `send` uses: the queue and `m_dseq`.
pub record Sender (S : Type 0) : Type 0 where
  pub queue : PacketQueue S
  pub dseq : ℕ

-- What the loop does to the packet at the front, for `remaining` bytes left of `msg`.
unfoldable pub fill : List ℕ → ℕ → ℕ → Packet → Packet
fill msg dseq remaining pkt =
    let p1 = set_seq pkt dseq in
    let p2 = set_is_ack p1 false in
    let p3 = set_size p2 (4 + min remaining mtu) in
    copy_payload p3 (take (p3.size - 4) (drop (length msg - remaining) msg))

module _ {S : Type 0} (signal : S → S) where
  -- One round, for what `front ()` returns: `none` while another thread holds the front slot, where the
  -- code yields and tries again.
  unfoldable pub send_packet :
      List ℕ → Sender S → ℕ → Option ℕ × PacketQueue S → Option (Sender S × ℕ)
  send_packet msg s remaining (none, q1) = none
  send_packet msg s remaining (some f, q1) =
      let q2 = modify q1 f (fill msg s.dseq remaining) in
      some (
        record { queue = front_next signal q2; dseq = (s.dseq + 1) % 2 ^ 32 },
        remaining - ((q2.buf f).size - 4),
      )

  unfoldable pub send_round : List ℕ → Sender S → ℕ → Option (Sender S × ℕ)
  unfolding send_packet
  send_round msg s remaining = send_packet msg s remaining (front s.queue)

  -- The loop; `none` too if the fuel runs out.
  unfoldable pub send_loop : ℕ → List ℕ → Sender S → ℕ → Option (Sender S)
  send_loop zero msg s remaining = none
  send_loop (suc fuel) msg s remaining =
      if remaining == 0 then some s else elim (send_round msg s remaining) [
        | none ↦ none
        | some (s', remaining') ↦ send_loop fuel msg s' remaining'
      ]

  unfoldable pub send : Sender S → List ℕ → Option (Sender S)
  send s msg = let remaining = length msg % 2 ^ 32 in send_loop (suc remaining) msg s remaining
