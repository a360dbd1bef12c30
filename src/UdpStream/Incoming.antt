-- ===== src/UdpStream/Incoming.antt =====
-- The first half of a round of `UDPStream::receiverEntry`: a datagram comes in, an ack is noted on the
-- packet in flight, and a data packet is delivered and acked.
pub mod Branch
pub mod Ack
pub mod Data
mod Tests
use adaptive_transport.Common.{
  ℕ, Bool, true, false, Option, none, some, List, [], ◌∷◌, ◌++◌, ◌==◌, ltb, if◌then◌else◌, ◌⊎◌, inl,
  inr,
}
use adaptive_transport.Packet.{
  Packet, seq, is_ack, set_is_ack, set_size, ts_recv_ack, set_ts_recv_ack, set_ts_recv, set_ts_ack,
  payload, wire,
}
use adaptive_transport.CircBuff.{CircBuff}
use adaptive_transport.PacketQueue.{PacketQueue, modify, Lookup, running, ended, find}
use adaptive_transport.UdpSocket.{Recvmsg, SocketAbort, recv}
use adaptive_transport.UdpStream.Receive.{Receiver, on_recv}

-- The fields and the local packet that the round uses. `sent` is what `sendto` has been given, with the
-- address that it goes to.
pub record Endpoint (S A : Type 0) : Type 0 where
  pub queue : PacketQueue S
  pub receiver : Receiver CircBuff
  pub peer : A
  pub pkt : Packet
  pub sent : List (A × List ℕ)

-- Why the round aborts: in `recv`, or at a datagram that is shorter than a header.
pub data Failure : Type 0 where
  in_recv : SocketAbort → Failure
  unexpected_length : ℕ → Failure

-- The two writes through the pointer that `find` returned.
abbrev pub note_ack : Packet → Packet → Packet
note_ack pkt opkt = set_ts_ack (set_ts_recv opkt (ts_recv_ack pkt)) pkt.ts_recv

-- The packet that came in, reused for its ack.
abbrev pub make_ack : Packet → Packet
make_ack pkt =
    let p1 = set_is_ack pkt true in let p2 = set_size p1 12 in set_ts_recv_ack p2 p2.ts_recv

-- While the search is running nothing has been written.
unfoldable pub on_ack : {S : Type 0} → PacketQueue S → Packet → PacketQueue S
on_ack q pkt = elim (find q (seq pkt)) [
  | running ↦ q
  | ended none ↦ q
  | ended (some i) ↦ modify q i (note_ack pkt)
]

module _ {S A : Type 0} where
  unfoldable pub on_data : Endpoint S A → A → Packet → Endpoint S A
  on_data e raddr pkt = record e {
    receiver = on_recv e.receiver (seq pkt) (payload pkt);
    peer = raddr;
    pkt = make_ack pkt;
    sent = e.sent ++ (raddr, wire (make_ack pkt)) ∷ [];
  }

  -- The branches on what `recv` left in the packet. A size of 0 is taken for a timeout.
  unfoldable pub on_packet : Endpoint S A → A → Packet → Failure ⊎ Endpoint S A
  unfolding on_ack on_data
  on_packet e raddr pkt =
      if pkt.size == 0
      then inr (record e { pkt = pkt })
      else if ltb pkt.size 4
      then inl (unexpected_length pkt.size)
      else if is_ack pkt
      then inr (record e { queue = on_ack e.queue pkt; peer = raddr; pkt = pkt })
      else inr (on_data e raddr pkt)

  unfoldable pub incoming : A → Endpoint S A → Recvmsg A → Failure ⊎ Endpoint S A
  unfolding on_packet
  incoming no_address e msg = elim (recv no_address (set_size e.pkt 0) msg) [
    | inl why ↦ inl (in_recv why)
    | inr (raddr, pkt) ↦ on_packet e raddr pkt
  ]
