-- ===== src/Packet/Tests.antt =====
-- Runs of the packet's accessors, and the theorems about them at concrete packets.
use adaptive_transport.Common.{
  ℕ, ◌+◌, ◌%◌, ◌^◌, ◌≡◌, refl, true, List, [], ◌∷◌, replicate, length-replicate, arith,
}
use adaptive_transport.Common.Bytes.{replicate-IsBytes}
use adaptive_transport.Packet.{Packet, mtu, init, seq, set_seq, is_ack, set_is_ack}
use adaptive_transport.Packet.Header.{IsValid, header-set_seq}

abbrev zeros : Packet
zeros = init (replicate (mtu + 4) 0)

zeros-IsValid : IsValid zeros
zeros-IsValid = record {
  full = length-replicate {A = ℕ} (mtu + 4) 0;
  bytes = replicate-IsBytes (mtu + 4) 0 (omega arith);
}

-- tester.cpp: a sequence number, then the ack flag.
tester_seq : seq (set_is_ack (set_seq zeros 1234) true) ≡ 1234
unfolding seq set_is_ack set_seq
tester_seq = refl

tester_ack : is_ack (set_is_ack (set_seq zeros 1234) true) ≡ true
unfolding is_ack set_is_ack set_seq
tester_ack = refl

header-set_seq_example :
    (seq (set_seq zeros (2 ^ 31 + 5)) ≡ (2 ^ 31 + 5) % 2 ^ 31)
    × (is_ack (set_seq zeros (2 ^ 31 + 5)) ≡ is_ack zeros)
header-set_seq_example = header-set_seq (2 ^ 31 + 5) zeros-IsValid

abbrev sized : Packet
sized = record zeros { size = 7 }

sized-IsValid : IsValid sized
sized-IsValid = record { full = zeros-IsValid.full; bytes = zeros-IsValid.bytes }

abbrev hello : List ℕ
hello = 72 ∷ 105 ∷ 33 ∷ []
