-- ===== src/UdpStream/Incoming/Branch.antt =====
-- The branches of the round, by what `recv` left in the packet.
use adaptive_transport.Common.{◌≤◌, ◌≡◌, refl, true, false, ◌==◌, ltb, inr, arith}
use adaptive_transport.Packet.{Packet, is_ack, set_size}
use adaptive_transport.UdpSocket.{Recvmsg, recv}
use adaptive_transport.UdpStream.Incoming.{Endpoint, on_ack, on_data, on_packet, incoming}

module _ {S A : Type 0} where
  pub incoming-recv :
      (no_address : A) (e : Endpoint S A) (msg : Recvmsg A) {from : A} {r : Packet}
      → recv no_address (set_size e.pkt 0) msg ≡ inr (from, r)
      → incoming no_address e msg ≡ on_packet e from r
  unfolding incoming on_packet
  incoming-recv no_address e msg runs = rw (runs, incoming) refl

  pub on_packet-ack :
      (e : Endpoint S A) (from : A) (r : Packet)
      → 4 ≤ r.size
      → is_ack r ≡ true
      → on_packet e from r ≡ inr (record e { queue = on_ack e.queue r; peer = from; pkt = r })
  unfolding on_packet
  on_packet-ack e from r lo kind =
      let some_size : (r.size == 0) ≡ false = ground arith in
      let whole : ltb r.size 4 ≡ false = ground arith in rw (some_size, whole, kind) refl

  pub on_packet-data :
      (e : Endpoint S A) (from : A) (r : Packet)
      → 4 ≤ r.size
      → is_ack r ≡ false
      → on_packet e from r ≡ inr (on_data e from r)
  unfolding on_packet
  on_packet-data e from r lo kind =
      let some_size : (r.size == 0) ≡ false = ground arith in
      let whole : ltb r.size 4 ≡ false = ground arith in rw (some_size, whole, kind) refl
