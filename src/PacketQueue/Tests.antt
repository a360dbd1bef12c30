-- ===== src/PacketQueue/Tests.antt =====
-- The queue's theorems at a ring of four slots with one packet in flight and one that waits.
use mathlib.Core.Option
use adaptive_transport.Common.{
  Option, ℕ, ◌≡◌, refl, false, some, [], ◌∷◌, ◌++◌, suc, replicate, arith,
}
use adaptive_transport.Packet
use adaptive_transport.Packet.{Packet, set_size, set_seq, seq}
use adaptive_transport.PacketQueue.{PacketQueue, init, front, front_next, tx_next, ended, find}
use adaptive_transport.PacketQueue.View.{in_flight, pending}
use adaptive_transport.PacketQueue.Refine.{front_next_refines}
use adaptive_transport.PacketQueue.Invariant.{IsValid}
use adaptive_transport.PacketQueue.Search.{first_with, find_refines}
use adaptive_transport.PacketQueue.Reach.{here, next, takes_front, queues, sends, reached-IsValid}

-- Packet `i` in slot `i`, of ten bytes; a semaphore is the count of its signals.
abbrev numbered : ℕ → Packet
numbered i = set_size (set_seq (Packet.init (replicate 8 0)) i) 10

abbrev ring : PacketQueue ℕ
ring = record {
  front_idx = 1;
  front_used = false;
  tx_idx = 0;
  unacked_idx = 3;
  size = 4;
  bytes_queued = 10;
  buf = numbered;
  front_sema = 0;
  tx_sema = 0;
}

ring-IsValid : IsValid ring
unfolding pending set_size set_seq
ring-IsValid = record {
  ordered = omega arith;
  few = omega arith;
  sizes = λ i. omega arith;
  queued = refl;
}

ring-lists : (in_flight ring ≡ numbered 3 ∷ []) × (pending ring ≡ numbered 0 ∷ [])
unfolding in_flight pending
ring-lists = (refl, refl)

found : find ring 3 ≡ ended (some 3)
unfolding find seq set_seq set_size
found = refl

front_next_refines_example :
    (pending (front_next suc ring) ≡ pending ring ++ numbered 1 ∷ [])
    × (in_flight (front_next suc ring) ≡ in_flight ring)
front_next_refines_example = front_next_refines suc ring-IsValid.ordered (omega arith)

find_refines_example :
    (r : Option ℕ) × (find ring 3 ≡ ended r)
    × (Option.map numbered r ≡ first_with 3 (in_flight ring))
find_refines_example = find_refines 3 ring-IsValid.ordered

-- A packet is queued and sent, in a new queue.
reached-IsValid_example : IsValid (tx_next suc (front_next suc (front (init 0 numbered)).1))
unfolding init front front_next
reached-IsValid_example =
    reached-IsValid suc 0 numbered (λ i. unfold set_size in omega arith)
      (next
        (next (next here (takes_front (init 0 numbered) refl))
          (queues (front (init 0 numbered)).1 refl (omega arith)))
        (sends (front_next suc (front (init 0 numbered)).1) (omega arith)))
