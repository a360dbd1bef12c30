-- ===== src/UdpStream/Delivery/Tests.antt =====
-- A message of two packets that arrive in the other order, one of them twice.
use adaptive_transport.Common.{
  ℕ, zero, suc, ◌+◌, ◌≡◌, refl, sym, true, false, some, inl, inr, List, [], ◌∷◌, ◌++◌, map,
  replicate, length-replicate, arith,
}
use adaptive_transport.Common.Bytes.{replicate-IsBytes}
use adaptive_transport.Packet.{Packet, mtu, init, copy_payload, set_size}
use adaptive_transport.Packet.Header
use adaptive_transport.PacketQueue.{PacketQueue, front, front_next, modify}
use adaptive_transport.PacketQueue.View.{pending}
use adaptive_transport.UdpSocket.Whole.{parsed, Same, parsed-Same}
use adaptive_transport.UdpStream.Send.{Sender, fill, send_packet, send_round, send_loop, send}
use adaptive_transport.UdpStream.Send.Fill.{fill-IsData, size-fill}
use adaptive_transport.UdpStream.Send.Queued.{IsReady}
use adaptive_transport.UdpStream.Receive.{start, receive_all}
use adaptive_transport.UdpStream.Delivery.{read, AllArrive, message_delivered}

abbrev fresh : Packet
fresh = init (replicate (mtu + 4) 0)

fresh-IsValid : Header.IsValid fresh
fresh-IsValid = record {
  full = length-replicate {A = ℕ} (mtu + 4) 0;
  bytes = replicate-IsBytes (mtu + 4) 0 (omega arith);
}

abbrev idle : Sender ℕ
idle = record {
  queue = record {
    front_idx = 3;
    front_used = false;
    tx_idx = 3;
    unacked_idx = 3;
    size = 4;
    bytes_queued = 0;
    buf = λ _. fresh;
    front_sema = 0;
    tx_sema = 0;
  };
  dseq = 1;
}

idle-IsReady : IsReady idle
unfolding pending
idle-IsReady = record {
  valid = record {
    ordered = omega arith;
    few = omega arith;
    sizes = λ i. omega arith;
    queued = refl;
  };
  free = refl;
  slots = λ i. fresh-IsValid;
  wraps = omega arith;
}

abbrev message : List ℕ
message = replicate 1401 7

abbrev first_packet : Packet
first_packet = fill message 1 1401 fresh

abbrev second_packet : Packet
second_packet = fill message 2 1 fresh

abbrev written : PacketQueue ℕ → Packet → PacketQueue ℕ
written q p = front_next suc (modify (record q { front_used = true }) q.front_idx (λ _. p))

abbrev sent : Sender ℕ
sent = record { queue = written (written idle.queue first_packet) second_packet; dseq = 3 }

runs : send suc idle message ≡ some sent
unfolding send send_loop send_round send_packet front front_next fill copy_payload set_size
runs = refl

queued : pending sent.queue ≡ pending idle.queue ++ first_packet ∷ second_packet ∷ []
unfolding pending front_next
queued = refl

copy_of : (p : Packet) → Packet
copy_of p = parsed fresh p 5

first-Same : Same (copy_of first_packet) first_packet 5
unfolding copy_of
first-Same =
    parsed-Same
      (fill-IsData fresh-IsValid message 1 1401 (replicate-IsBytes 1400 7 (omega arith))
        (omega arith)).valid
      fresh-IsValid (omega (arith, size-fill message 1 1401 fresh))
      (omega (arith, size-fill message 1 1401 fresh)) 5

second-Same : Same (copy_of second_packet) second_packet 5
unfolding copy_of
second-Same =
    parsed-Same
      (fill-IsData fresh-IsValid message 2 1 (replicate-IsBytes 1 7 (omega arith))
        (omega arith)).valid
      fresh-IsValid (omega (arith, size-fill message 2 1 fresh))
      (omega (arith, size-fill message 2 1 fresh)) 5

abbrev arrivals : List Packet
arrivals = copy_of second_packet ∷ copy_of first_packet ∷ copy_of second_packet ∷ []

all_arrive : AllArrive (first_packet ∷ second_packet ∷ []) arrivals
all_arrive zero p e =
    let same : p ≡ first_packet = cc e in rw same (inr (inl (sym first-Same.number)))
all_arrive (suc zero) p e =
    let same : p ≡ second_packet = cc e in rw same (inl (sym second-Same.number))
all_arrive (suc (suc i)) p e = absurd (ground (arith, e))

message_delivered_example : (receive_all ◌++◌ (start []) (map read arrivals)).recv_buff ≡ message
message_delivered_example =
    message_delivered suc idle sent message (first_packet ∷ second_packet ∷ []) arrivals
      idle-IsReady refl (replicate-IsBytes 1401 7 (omega arith)) (omega arith) (omega arith) runs
      queued
      (
        (1, second_packet, 5, refl, second-Same),
        ((0, first_packet, 5, refl, first-Same), ((1, second_packet, 5, refl, second-Same), tt)),
      )
      all_arrive
