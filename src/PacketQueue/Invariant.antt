-- ===== src/PacketQueue/Invariant.antt =====
-- `m_bytesQueued` is the number of bytes that wait to be sent, exactly: the `uint32_t` never wraps.
use adaptive_transport.Common.{
  ℕ, ◌+◌, ◌-◌, ◌%◌, ◌^◌, ◌≤◌, ◌<◌, ◌≡◌, ◌≢◌, refl, sym, ap, ◌∙◌, [], ◌∷◌, arith,
}
use adaptive_transport.Packet.{Packet}
use adaptive_transport.PacketQueue.{
  PacketQueue, slots, init, modify, front_next, tx_next, unacked_next,
}
use adaptive_transport.PacketQueue.View.{
  pending_count, pending, total, total-append, total-window, InOrder, pending-modify_front,
}
use adaptive_transport.PacketQueue.Refine.{
  HasRoom, front_next-InOrder, front_next_refines, tx_next-InOrder, tx_next_refines,
  unacked_next-InOrder, unacked_next_refines,
}

module _ {S : Type 0} where
  pub record IsValid (q : PacketQueue S) : Type 0 where
    pub ordered : InOrder q
    pub few : q.size ≤ slots
    pub sizes : (i : ℕ) → (q.buf i).size ≤ 65535
    pub queued : q.bytes_queued ≡ total (pending q)

  total-pending-lt :
      (q : PacketQueue S)
      → InOrder q
      → q.size ≤ slots
      → ((i : ℕ) → (q.buf i).size ≤ 65535)
      → total (pending q) < 2 ^ 30
  unfolding pending
  total-pending-lt q v few sizes =
      omega (arith, total-window q.buf q.size q.tx_idx (pending_count q) sizes, v.order)

  pub init-IsValid :
      (idle : S) (memory : ℕ → Packet)
      → ((i : ℕ) → (memory i).size ≤ 65535)
      → IsValid (init idle memory)
  unfolding init pending
  init-IsValid idle memory sizes = record {
    ordered = omega arith;
    few = omega arith;
    sizes = sizes;
    queued = refl;
  }

  -- A write to the front slot, by the thread that holds it.
  pub modify_front-IsValid :
      {q : PacketQueue S} (f : Packet → Packet)
      → ((p : Packet) → (f p).size ≤ 65535)
      → IsValid q
      → IsValid (modify q q.front_idx f)
  modify_front-IsValid {q} f fits v = record {
    ordered = record {
      front_in = o.front_in;
      tx_in = o.tx_in;
      unacked_in = o.unacked_in;
      order = o.order;
    };
    few = v.few;
    sizes = λ i. ground (arith, v.sizes i, fits (q.buf q.front_idx));
    queued = v.queued ∙ ap total (sym (pending-modify_front q f o));
  }
    where
      o : InOrder q
      o = v.ordered

  module _ (signal : S → S) where
    -- `frontNext` with room keeps the invariant of the queue: the cursors in order, and
    -- `m_bytesQueued` equal to the bytes of the packets that wait.
    pub front_next-IsValid :
        {q : PacketQueue S} → IsValid q → HasRoom q → IsValid (front_next signal q)
    front_next-IsValid {q} v room = record {
      ordered = ordered';
      few = few';
      sizes = sizes';
      queued = omega (
        arith,
        counted,
        v.queued,
        ap total (front_next_refines signal v.ordered room).0,
        total-append (pending q) (q.buf q.front_idx ∷ []),
        total-pending-lt (front_next signal q) ordered' few' sizes',
      );
    }
      where
        ordered' : InOrder (front_next signal q)
        ordered' = front_next-InOrder signal v.ordered room

        few' : (front_next signal q).size ≤ slots
        few' = unfold front_next in v.few

        sizes' : (i : ℕ) → ((front_next signal q).buf i).size ≤ 65535
        sizes' = unfold front_next in v.sizes

        counted :
            (front_next signal q).bytes_queued
            ≡ (q.bytes_queued + (q.buf q.front_idx).size) % 2 ^ 32
        counted = unfold front_next in refl

    -- `txNext` while a packet waits keeps the invariant of the queue: what it takes off
    -- `m_bytesQueued` never exceeds what was counted.
    pub tx_next-IsValid :
        {q : PacketQueue S} → IsValid q → q.tx_idx ≢ q.front_idx → IsValid (tx_next signal q)
    tx_next-IsValid {q} v some_wait = record {
      ordered = tx_next-InOrder signal v.ordered some_wait;
      few = unfold tx_next in v.few;
      sizes = unfold tx_next in v.sizes;
      queued = omega (
        arith,
        counted,
        v.queued,
        ap total (tx_next_refines signal v.ordered some_wait).0,
        total-pending-lt q v.ordered v.few v.sizes,
      );
    }
      where
        counted :
            (tx_next signal q).bytes_queued
            ≡ (q.bytes_queued + 2 ^ 32 - (q.buf q.tx_idx).size) % 2 ^ 32
        counted = unfold tx_next in refl

  pub unacked_next-IsValid :
      {q : PacketQueue S} → IsValid q → q.unacked_idx ≢ q.tx_idx → IsValid (unacked_next q)
  unacked_next-IsValid {q} v some_sent = record {
    ordered = unacked_next-InOrder v.ordered some_sent;
    few = unfold unacked_next in v.few;
    sizes = unfold unacked_next in v.sizes;
    queued = counted ∙ ap total (sym (unacked_next_refines v.ordered some_sent).1);
  }
    where
      counted : (unacked_next q).bytes_queued ≡ total (pending q)
      counted = unfold unacked_next in v.queued
