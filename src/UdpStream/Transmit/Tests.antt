-- ===== src/UdpStream/Transmit/Tests.antt =====
-- A round on a ring of four slots with one packet that waits, whose second try at the bucket succeeds.
use adaptive_transport.Common.{
  ℕ, suc, ◌+◌, ◌*◌, ◌/◌, min, ◌≡◌, refl, false, some, List, [], ◌∷◌, ◌++◌, replicate, arith,
}
use adaptive_transport.Packet.{Packet, mtu, init, set_size, set_ts_sent, wire}
use adaptive_transport.PacketQueue.{PacketQueue, tx, timed_out, slot}
use adaptive_transport.PacketQueue.View.{in_flight, pending, InOrder}
use adaptive_transport.TokenBucket.{consume}
use adaptive_transport.UdpStream.Transmit.{Link, hold, transmit}
use adaptive_transport.UdpStream.Transmit.Effect.{transmit_lem}

abbrev waiting_packet : Packet
waiting_packet = set_size (init (replicate (mtu + 4) 0)) 1000

abbrev ring : PacketQueue ℕ
ring = record {
  front_idx = 1;
  front_used = false;
  tx_idx = 0;
  unacked_idx = 3;
  size = 4;
  bytes_queued = 1000;
  buf = λ _. waiting_packet;
  front_sema = 0;
  tx_sema = 0;
}

abbrev link : Link ℕ
link = record { queue = ring; ts_last = 300000000000; sent = [] }

abbrev exact : ℕ → ℕ → ℕ → ℕ
exact diff rate burst = min burst (diff * rate / 1000000)

-- At a million bytes a second, after half a millisecond and after one.
abbrev tries : List (ℕ × ℕ)
tries = (300000000500, 1000000) ∷ (300000001000, 1000000) ∷ []

second_try : hold exact 300000000000 1000 tries ≡ some 300000001000
unfolding hold consume
second_try = refl

first_slot : tx ring (timed_out ∷ []) ≡ slot 0 ring
unfolding tx
first_slot = refl

ring-InOrder : InOrder ring
ring-InOrder = omega arith

transmit_lem_example :
    (l' : Link ℕ) × (p : Packet) × (transmit exact suc (timed_out ∷ []) tries 300000001100 link
      ≡ some l')
    × (pending ring ≡ p ∷ pending l'.queue)
    × (in_flight l'.queue ≡ in_flight ring ++ set_ts_sent p 300000001100 ∷ [])
    × (l'.sent ≡ [] ++ wire p ∷ [])
unfolding set_size
transmit_lem_example =
    transmit_lem suc exact (timed_out ∷ []) tries 300000001100 link {q = ring} {i = 0}
      {ts_last = 300000001000} first_slot ring-InOrder second_try
