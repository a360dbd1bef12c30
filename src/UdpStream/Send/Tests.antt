-- ===== src/UdpStream/Send/Tests.antt =====
-- `send` at a small message and a ring of four free slots.
use adaptive_transport.Common.{
  ℕ, suc, ◌+◌, ◌≡◌, refl, false, some, List, replicate, length-replicate, arith,
}
use adaptive_transport.Common.Bytes.{replicate-IsBytes}
use adaptive_transport.Packet.{Packet, mtu, init}
use adaptive_transport.PacketQueue.View.{pending}
use adaptive_transport.UdpStream.Send.{Sender, send}
use adaptive_transport.UdpStream.Send.Queued.{IsReady, Sent}
use adaptive_transport.UdpStream.Send.Cut.{send-Sent}

abbrev fresh : Packet
fresh = init (replicate (mtu + 4) 0)

abbrev idle : Sender ℕ
idle = record {
  queue = record {
    front_idx = 3;
    front_used = false;
    tx_idx = 3;
    unacked_idx = 3;
    size = 4;
    bytes_queued = 0;
    buf = λ _. fresh;
    front_sema = 0;
    tx_sema = 0;
  };
  dseq = 1;
}

idle-IsReady : IsReady idle
unfolding pending
idle-IsReady = record {
  valid = record {
    ordered = omega arith;
    few = omega arith;
    sizes = λ i. omega arith;
    queued = refl;
  };
  free = refl;
  slots = λ i. record {
    full = length-replicate {A = ℕ} (mtu + 4) 0;
    bytes = replicate-IsBytes (mtu + 4) 0 (omega arith);
  };
  wraps = omega arith;
}

-- Two packets: 1400 bytes and 100.
abbrev message : List ℕ
message = replicate 1500 7

send-Sent_example :
    (s' : Sender ℕ) × (ps : List Packet) × (send suc idle message ≡ some s')
    × Sent idle s' message ps
send-Sent_example =
    send-Sent suc idle message idle-IsReady (replicate-IsBytes 1500 7 (omega arith)) (omega arith)
      (omega arith)
