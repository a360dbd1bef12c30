-- ===== src/PacketQueue/Refine.antt =====
-- Each cursor operation as an operation on the two lists of packets.
use adaptive_transport.Common.{ℕ, suc, ◌+◌, ◌%◌, ◌<◌, ◌≡◌, ◌≢◌, refl, ap, ◌∙◌, [], ◌∷◌, ◌++◌, arith}
use adaptive_transport.Common.Window.{window, window-add, gap, add-gap-mod}
use adaptive_transport.Packet.{Packet}
use adaptive_transport.PacketQueue.{PacketQueue, next_slot, front_next, tx_next, unacked_next}
use adaptive_transport.PacketQueue.View.{
  in_flight_count, pending_count, in_flight, pending, InOrder, window-first,
}

-- One more entry of a window.
window-last :
    (f : ℕ → Packet) (size i n j : ℕ)
    → (i + n) % size ≡ j
    → window f size i (n + 1) ≡ window f size i n ++ f j ∷ []
window-last f size i n j e = window-add f size i n 1 ∙ ap (λ k. window f size i n ++ f k ∷ []) e

module _ {S : Type 0} where
  -- One more packet can be queued.
  abbrev pub HasRoom : PacketQueue S → Type 0
  HasRoom q = in_flight_count q + pending_count q + 1 < q.size

  module _ (signal : S → S) where
    pub front_next-InOrder :
        {q : PacketQueue S} → InOrder q → HasRoom q → InOrder (front_next signal q)
    unfolding front_next
    front_next-InOrder {q} v room = record {
      front_in = ground (arith, v.front_in);
      tx_in = v.tx_in;
      unacked_in = v.unacked_in;
      order = ground (arith, v.front_in, v.tx_in, v.unacked_in, v.order);
    }

    -- In a queue in order with room, `frontNext` puts the front slot behind the packets that wait, and
    -- leaves those in flight.
    pub front_next_refines :
        {q : PacketQueue S}
        → InOrder q
        → HasRoom q
        → (pending (front_next signal q) ≡ pending q ++ q.buf q.front_idx ∷ [])
          × (in_flight (front_next signal q) ≡ in_flight q)
    unfolding front_next pending in_flight
    front_next_refines {q} v room = (
      ap (window q.buf q.size q.tx_idx) count
          ∙ window-last q.buf q.size q.tx_idx (pending_count q) q.front_idx
              (add-gap-mod q.size q.front_idx q.tx_idx v.front_in v.tx_in),
      refl,
    )
      where
        count : gap q.size (next_slot q.size q.front_idx) q.tx_idx ≡ pending_count q + 1
        count = ground (arith, v.front_in, v.tx_in, v.unacked_in, v.order, room)

    pub tx_next-InOrder :
        {q : PacketQueue S} → InOrder q → q.tx_idx ≢ q.front_idx → InOrder (tx_next signal q)
    unfolding tx_next
    tx_next-InOrder {q} v some_wait = record {
      front_in = v.front_in;
      tx_in = ground (arith, v.tx_in);
      unacked_in = v.unacked_in;
      order = ground (arith, v.front_in, v.tx_in, v.unacked_in, v.order);
    }

    -- In a queue in order, while a packet waits, `txNext` moves the first such packet to the end of
    -- those in flight.
    pub tx_next_refines :
        {q : PacketQueue S}
        → InOrder q
        → q.tx_idx ≢ q.front_idx
        → (pending q ≡ q.buf q.tx_idx ∷ pending (tx_next signal q))
          × (in_flight (tx_next signal q) ≡ in_flight q ++ q.buf q.tx_idx ∷ [])
    unfolding tx_next pending in_flight
    tx_next_refines {q} v some_wait = (
      ap (window q.buf q.size q.tx_idx) fewer
          ∙ window-first q.buf q.size q.tx_idx (pending_count (tx_next signal q)) v.tx_in,
      ap (window q.buf q.size q.unacked_idx) more
          ∙ window-last q.buf q.size q.unacked_idx (in_flight_count q) q.tx_idx
              (add-gap-mod q.size q.tx_idx q.unacked_idx v.tx_in v.unacked_in),
    )
      where
        fewer : pending_count q ≡ suc (pending_count (tx_next signal q))
        fewer = ground (arith, v.front_in, v.tx_in, v.unacked_in, v.order, some_wait)

        more : in_flight_count (tx_next signal q) ≡ in_flight_count q + 1
        more = ground (arith, v.front_in, v.tx_in, v.unacked_in, v.order, some_wait)

  pub unacked_next-InOrder :
      {q : PacketQueue S} → InOrder q → q.unacked_idx ≢ q.tx_idx → InOrder (unacked_next q)
  unfolding unacked_next
  unacked_next-InOrder {q} v some_sent = record {
    front_in = v.front_in;
    tx_in = v.tx_in;
    unacked_in = ground (arith, v.unacked_in);
    order = ground (arith, v.front_in, v.tx_in, v.unacked_in, v.order);
  }

  -- In a queue in order, while a packet is in flight, `unackedNext` settles the oldest one and leaves
  -- those that wait.
  pub unacked_next_refines :
      {q : PacketQueue S}
      → InOrder q
      → q.unacked_idx ≢ q.tx_idx
      → (in_flight q ≡ q.buf q.unacked_idx ∷ in_flight (unacked_next q))
        × (pending (unacked_next q) ≡ pending q)
  unfolding unacked_next pending in_flight
  unacked_next_refines {q} v some_sent = (
    ap (window q.buf q.size q.unacked_idx) fewer
        ∙ window-first q.buf q.size q.unacked_idx (in_flight_count (unacked_next q)) v.unacked_in,
    refl,
  )
    where
      fewer : in_flight_count q ≡ suc (in_flight_count (unacked_next q))
      fewer = ground (arith, v.front_in, v.tx_in, v.unacked_in, v.order, some_sent)
