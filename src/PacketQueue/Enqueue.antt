-- ===== src/PacketQueue/Enqueue.antt =====
-- The way every packet enters the queue: take the front slot, write it, call `frontNext`.
use adaptive_transport.Common.{◌≤◌, ◌≡◌, refl, ap₂, ◌∙◌, true, false, some, [], ◌∷◌, ◌++◌, arith}
use adaptive_transport.Packet.{Packet}
use adaptive_transport.PacketQueue.{PacketQueue, modify, front, front_next}
use adaptive_transport.PacketQueue.View.{
  in_flight, pending, InOrder, in_flight-modify_front, pending-modify_front,
}
use adaptive_transport.PacketQueue.Refine.{HasRoom, front_next_refines}
use adaptive_transport.PacketQueue.Invariant.{IsValid, modify_front-IsValid, front_next-IsValid}

module _ {S : Type 0} where
  -- The queue while its front slot is in use.
  abbrev pub held_front : PacketQueue S → PacketQueue S
  held_front q = record q { front_used = true }

  pub front-free :
      (q : PacketQueue S) → q.front_used ≡ false → front q ≡ (some q.front_idx, held_front q)
  unfolding front
  front-free q e = rw e

  abbrev pub enqueue : (S → S) → PacketQueue S → (Packet → Packet) → PacketQueue S
  enqueue signal q write = front_next signal (modify (held_front q) q.front_idx write)

  held_front-InOrder : {q : PacketQueue S} → InOrder q → InOrder (held_front q)
  held_front-InOrder v = record {
    front_in = v.front_in;
    tx_in = v.tx_in;
    unacked_in = v.unacked_in;
    order = v.order;
  }

  pub held_front-IsValid : {q : PacketQueue S} → IsValid q → IsValid (held_front q)
  unfolding pending
  held_front-IsValid v = record {
    ordered = held_front-InOrder v.ordered;
    few = v.few;
    sizes = v.sizes;
    queued = v.queued;
  }

  pub enqueue-IsValid :
      (signal : S → S) {q : PacketQueue S} (write : Packet → Packet)
      → ((p : Packet) → (write p).size ≤ 65535)
      → IsValid q
      → HasRoom q
      → IsValid (enqueue signal q write)
  enqueue-IsValid signal write small v room =
      front_next-IsValid signal (modify_front-IsValid write small (held_front-IsValid v)) room

  -- In a queue in order with room, the packet as written in the front slot goes behind the packets
  -- that wait, those in flight stay, and the front slot is free again.
  pub enqueue_refines :
      (signal : S → S) {q : PacketQueue S} (write : Packet → Packet)
      → ((p : Packet) → (write p).size ≤ 65535)
      → IsValid q
      → HasRoom q
      → (pending (enqueue signal q write) ≡ pending q ++ write (q.buf q.front_idx) ∷ [])
        × (in_flight (enqueue signal q write) ≡ in_flight q)
        × ((enqueue signal q write).front_used ≡ false)
  enqueue_refines signal {q} write small v room =
      let o = held_front-InOrder v.ordered in
      let w = modify_front-IsValid write small (held_front-IsValid v) in
      let (waits, flies) = front_next_refines signal w.ordered room in
      (
        waits
            ∙ ap₂ (λ ps p. ps ++ p ∷ [])
                (pending-modify_front (held_front q) write o ∙ held_pending) (ground arith),
        flies ∙ in_flight-modify_front (held_front q) write o ∙ held_in_flight,
        unfold front_next in refl,
      )
    where
      held_pending : pending (held_front q) ≡ pending q
      held_pending = unfold pending in refl

      held_in_flight : in_flight (held_front q) ≡ in_flight q
      held_in_flight = unfold in_flight in refl
