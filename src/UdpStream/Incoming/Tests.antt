-- ===== src/UdpStream/Incoming/Tests.antt =====
-- A data packet and its ack, at two endpoints with rings of four slots.
use adaptive_transport.Common.{
  ℕ, ◌+◌, ◌≡◌, refl, true, false, inr, List, [], ◌∷◌, ◌++◌, replicate, length-replicate, arith,
}
use adaptive_transport.Common.Bytes.{replicate-IsBytes}
use adaptive_transport.Packet.{
  Packet, mtu, init, seq, is_ack, payload, ts_recv_ack, wire, set_seq, set_is_ack, set_size,
}
use adaptive_transport.Packet.Header
use adaptive_transport.Packet.Header.{set_seq-IsValid, set_is_ack-IsValid}
use adaptive_transport.CircBuff
use adaptive_transport.PacketQueue.View.{in_flight, pending, InOrder}
use adaptive_transport.PacketQueue.Change.{change_first}
use adaptive_transport.UdpSocket.{Control, timespec, packet_timestamp, received, recv}
use adaptive_transport.UdpSocket.Whole.{parsed, Same, recv-Same}
use adaptive_transport.UdpStream.Receive.{start, on_recv}
use adaptive_transport.UdpStream.Incoming.{Endpoint, incoming}
use adaptive_transport.UdpStream.Incoming.Ack.{with_times, incoming-ack}
use adaptive_transport.UdpStream.Incoming.Data.{IsAckOf, incoming-data, ack_returns}

abbrev fresh : Packet
fresh = init (replicate (mtu + 4) 0)

fresh-IsValid : Header.IsValid fresh
fresh-IsValid = record {
  full = length-replicate {A = ℕ} (mtu + 4) 0;
  bytes = replicate-IsBytes (mtu + 4) 0 (omega arith);
}

-- Packet 7 with six bytes, and an ack of packet 7.
abbrev seventh : Packet
seventh = set_size (set_seq fresh 7) 10

abbrev ack : Packet
ack = set_size (set_is_ack (set_seq fresh 7) true) 12

seventh-IsValid : Header.IsValid seventh
unfolding set_size
seventh-IsValid =
    let w = set_seq-IsValid 7 fresh-IsValid in record { full = w.full; bytes = w.bytes }

ack-IsValid : Header.IsValid ack
unfolding set_size
ack-IsValid =
    let w = set_is_ack-IsValid true (set_seq-IsValid 7 fresh-IsValid) in
    record { full = w.full; bytes = w.bytes }

-- Packet 7 is in flight in slot 3, and another one waits in slot 0.
abbrev endpoint : Endpoint ℕ ℕ
endpoint = record {
  queue = record {
    front_idx = 1;
    front_used = false;
    tx_idx = 0;
    unacked_idx = 3;
    size = 4;
    bytes_queued = 10;
    buf = λ _. seventh;
    front_sema = 0;
    tx_sema = 0;
  };
  receiver = start (CircBuff.init 4096 1);
  peer = 0;
  pkt = fresh;
  sent = [];
}

endpoint-InOrder : InOrder endpoint.queue
endpoint-InOrder = omega arith

-- Two seconds and one microsecond after the epoch.
abbrev stamp_message : Control
stamp_message = timespec 2 1500

read_stamp : packet_timestamp stamp_message ≡ inr 2000001
unfolding packet_timestamp
read_stamp = refl

recv-Same_example :
    (recv {A = ℕ} 0 fresh (received 5 (wire seventh) false false stamp_message)
      ≡ inr (5, parsed fresh seventh 2000001))
    × Same (parsed fresh seventh 2000001) seventh 2000001
unfolding set_size
recv-Same_example =
    recv-Same {p = seventh} {q = fresh} seventh-IsValid fresh-IsValid (omega arith) (omega arith) 0
      5 stamp_message read_stamp

incoming-ack_example :
    (e' : Endpoint ℕ ℕ) × (incoming 0 endpoint (received 5 (wire ack) false false stamp_message)
      ≡ inr e')
    × (in_flight e'.queue
        ≡ change_first (seq ack) (with_times (ts_recv_ack ack) 2000001) (in_flight endpoint.queue))
    × (pending e'.queue ≡ pending endpoint.queue)
    × (e'.receiver ≡ endpoint.receiver)
    × (e'.sent ≡ endpoint.sent)
    × (e'.peer ≡ 5)
    × (e'.queue ≡ record endpoint.queue { buf = e'.queue.buf })
unfolding set_size is_ack set_is_ack set_seq
incoming-ack_example =
    incoming-ack 0 5 endpoint ack stamp_message endpoint-InOrder fresh-IsValid ack-IsValid refl
      (omega arith) (omega arith) read_stamp

seventh_kind : is_ack seventh ≡ false
unfolding set_size is_ack set_seq
seventh_kind = refl

incoming-data_example :
    (e' : Endpoint ℕ ℕ) × (a : Packet) × (incoming 0 endpoint
        (received 5 (wire seventh) false false stamp_message)
      ≡ inr e')
    × (e'.receiver ≡ on_recv endpoint.receiver (seq seventh) (payload seventh))
    × (e'.sent ≡ endpoint.sent ++ (5, wire a) ∷ [])
    × IsAckOf a (seq seventh) 2000001
    × (e'.queue ≡ endpoint.queue)
unfolding set_size
incoming-data_example =
    incoming-data 0 5 endpoint seventh stamp_message fresh-IsValid seventh-IsValid seventh_kind
      (omega arith) (omega arith) read_stamp (omega arith)

ack_returns_example :
    (e' sender' : Endpoint ℕ ℕ) × (reply : List ℕ) × (incoming 0 endpoint
        (received 6 (wire seventh) false false stamp_message)
      ≡ inr e')
    × (e'.sent ≡ endpoint.sent ++ (6, reply) ∷ [])
    × (incoming 0 endpoint (received 5 reply false false stamp_message) ≡ inr sender')
    × (in_flight sender'.queue
        ≡ change_first (seq seventh) (with_times 2000001 2000001) (in_flight endpoint.queue))
    × (pending sender'.queue ≡ pending endpoint.queue)
    × (sender'.queue ≡ record endpoint.queue { buf = sender'.queue.buf })
unfolding set_size
ack_returns_example =
    ack_returns 0 5 6 endpoint endpoint seventh stamp_message stamp_message fresh-IsValid
      fresh-IsValid endpoint-InOrder seventh-IsValid seventh_kind (omega arith) (omega arith)
      read_stamp read_stamp (omega arith)
