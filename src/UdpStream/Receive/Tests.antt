-- ===== src/UdpStream/Receive/Tests.antt =====
-- The receiver at a stream of three packets that arrive out of order, one of them twice.
use adaptive_transport.Common.{ℕ, ◌+◌, ◌-◌, ◌≤◌, ◌≡◌, refl, List, [], ◌∷◌, ◌++◌, arith}
use adaptive_transport.CircBuff.{CircBuff, used}
use adaptive_transport.UdpStream.Held.{lookup, erase, insert, held_bytes}
use adaptive_transport.UdpStream.Receive.{
  Receiver, start, drain, arrive, on_recv_data, on_recv, receive_all,
}
use adaptive_transport.UdpStream.Receive.Order.{joined, FromStream, delivered_prefix}
use adaptive_transport.UdpStream.Receive.Complete.{Arrives, delivered_all}
use adaptive_transport.UdpStream.Receive.Buffer.{view, Fits, on_recv_refines}

abbrev chunk : ℕ → List ℕ
chunk s = s ∷ (s + 100) ∷ []

abbrev arrivals : List (ℕ × List ℕ)
arrivals = (3, chunk 3) ∷ (1, chunk 1) ∷ (3, chunk 3) ∷ (2, chunk 2) ∷ []

arrivals-FromStream : FromStream chunk 3 arrivals
arrivals-FromStream = (
  (omega arith, omega arith, refl),
  (
    (omega arith, omega arith, refl),
    ((omega arith, omega arith, refl), ((omega arith, omega arith, refl), tt)),
  ),
)

delivered_in_order :
    (receive_all ◌++◌ (start []) arrivals).recv_buff ≡ 1 ∷ 101 ∷ 2 ∷ 102 ∷ 3 ∷ 103 ∷ []
unfolding receive_all on_recv_data arrive drain lookup insert erase
delivered_in_order = refl

delivered_prefix_example :
    let r = receive_all ◌++◌ (start []) arrivals in
    (r.recv_buff ≡ joined chunk (r.next_seq - 1)) × (1 ≤ r.next_seq) × (r.next_seq ≤ 4)
delivered_prefix_example = delivered_prefix chunk 3 arrivals (omega arith) arrivals-FromStream

all_arrive : (k : ℕ) → 1 ≤ k → k ≤ 3 → Arrives k arrivals
all_arrive k lo hi = ground arith

delivered_all_example : (receive_all ◌++◌ (start []) arrivals).recv_buff ≡ joined chunk 3
delivered_all_example = delivered_all chunk 3 arrivals (omega arith) arrivals-FromStream all_arrive

abbrev empty_ring : CircBuff
empty_ring = record { capacity = 16; mem = λ _. 0; widx = 15; ridx = 15 }

-- Packet 2 is held when packet 1 arrives.
abbrev waiting : Receiver CircBuff
waiting = record { next_seq = 1; recv_map = (2, chunk 2) ∷ []; recv_buff = empty_ring }

waiting-Fits : Fits waiting 2
unfolding used held_bytes
waiting-Fits = record {
  valid = record {
    power = (4, refl);
    nonempty = omega arith;
    small = omega arith;
    write_in = omega arith;
    read_in = omega arith;
  };
  room = omega arith;
}

on_recv_refines_example :
    (view (on_recv waiting 1 (chunk 1)) ≡ on_recv_data ◌++◌ (view waiting) 1 (chunk 1))
    × Fits (on_recv waiting 1 (chunk 1)) 0
on_recv_refines_example = on_recv_refines waiting 1 (chunk 1) waiting-Fits
