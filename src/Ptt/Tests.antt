-- ===== src/Ptt/Tests.antt =====
-- A ring of four entries: one can be read, two packets are in flight, and the first of these has been
-- received.
use adaptive_transport.Common.{ℕ, ◌+◌, ◌≡◌, refl, true, if◌then◌else◌, ◌==◌, [], ◌∷◌, ◌++◌, arith}
use adaptive_transport.Ptt.{Ptt, Entry, init, set_sent, set_recv, skip_received, search, on_found}
use adaptive_transport.Ptt.View.{IsValid, in_flight, unread, drop_received, take_received}
use adaptive_transport.Ptt.InOrder.{set_recv-in_order}
use adaptive_transport.Ptt.Search.{lacks}
use adaptive_transport.Ptt.OutOfOrder.{set_recv-out_of_order}

abbrev entry : ℕ → Entry
entry i = record { seq = i; ts_sent = 100 + i; ts_recv = if i == 2 then 0 else 200 }

-- Entry 3 can be read, entries 0 and 1 are in flight.
abbrev ring : Ptt
ring = record { entries = entry; size = 4; next_seq = 4; head0 = 2; head1 = 0; tail = 3 }

-- The same with room.
abbrev roomy : Ptt
roomy = record ring { tail = 0 }

ring-IsValid : IsValid ring
ring-IsValid = omega arith

ring_lists : (in_flight ring ≡ entry 0 ∷ entry 1 ∷ []) × (unread ring ≡ entry 3 ∷ [])
unfolding in_flight unread
ring_lists = (refl, refl)

-- A packet that is sent and received on a fresh ring can be read.
one_packet : (set_recv 7 1 0 (set_sent 5 0 (init 4096)).1).0 ≡ true
unfolding set_recv set_sent skip_received init
one_packet = refl

-- Entry 0 is the oldest in flight, and entry 1 behind it has a receive time already.
set_recv-in_order_example :
    let r = set_recv 5 0 300 ring in
    (r.0 ≡ true)
    × IsValid r.1
    × (in_flight r.1 ≡ drop_received (entry 1 ∷ []))
    × (unread r.1
        ≡ unread ring ++ record (entry 0) { ts_recv = 300 } ∷ take_received (entry 1 ∷ []))
set_recv-in_order_example =
    set_recv-in_order 5 0 300 {p = ring} {x = entry 0} {xs = entry 1 ∷ []} ring-IsValid ring_lists.0
      refl (omega arith)

-- Entries 0 to 6 are in flight in a ring of eight; only entry 6, the one behind six others, is received.
abbrev row : Ptt
row = record {
  entries = λ i. record { seq = i; ts_sent = 100 + i; ts_recv = 0 };
  size = 8;
  next_seq = 7;
  head0 = 7;
  head1 = 0;
  tail = 0;
}

row-IsValid : IsValid row
row-IsValid = omega arith

abbrev sent : ℕ → Entry
sent i = row.entries i

row_lists :
    (in_flight row ≡ (sent 0 ∷ sent 1 ∷ sent 2 ∷ sent 3 ∷ sent 4 ∷ sent 5 ∷ []) ++ sent 6 ∷ [])
    × (lacks 6 (sent 0 ∷ sent 1 ∷ sent 2 ∷ sent 3 ∷ sent 4 ∷ sent 5 ∷ []) ≡ true)
unfolding in_flight lacks
row_lists = (refl, refl)

set_recv-out_of_order_example :
    let r = set_recv 5 6 300 row in
    (r.0 ≡ true)
    × IsValid r.1
    × (in_flight r.1 ≡ drop_received [])
    × (unread r.1
        ≡ unread row
          ++ sent 0
            ∷ sent 1
            ∷ sent 2
            ∷ sent 3
            ∷ sent 4
            ∷ sent 5
            ∷ record (sent 6) { ts_recv = 300 }
            ∷ take_received [])
set_recv-out_of_order_example =
    set_recv-out_of_order 5 6 300 (sent 0) (sent 1 ∷ sent 2 ∷ sent 3 ∷ sent 4 ∷ sent 5 ∷ [])
      (sent 6) [] {p = row} row-IsValid row_lists.0 row_lists.1 refl (omega arith)

-- With nothing in flight the search goes round the whole ring: a receive time for number 5, which is not
-- in flight, moves `head1` back, and entry 6 is in flight again.
not_in_flight :
    let p = record row { head1 = 7 } in
    (in_flight p ≡ [])
    × ((set_recv 5 5 300 p).0 ≡ true)
    × (in_flight (set_recv 5 5 300 p).1 ≡ sent 6 ∷ [])
unfolding set_recv skip_received search on_found in_flight
not_in_flight = (refl, refl, refl)
