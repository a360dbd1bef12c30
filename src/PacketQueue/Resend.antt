-- ===== src/PacketQueue/Resend.antt =====
-- The oldest packet in flight, copied to the front slot and then settled: how both the receiver and
-- `retransmitOlderThan` send a packet again.
use adaptive_transport.Common.{
  ℕ, ◌+◌, ◌≤◌, ◌≡◌, ◌≢◌, refl, sym, ap, ◌∙◌, false, inl, inr, Bool-cases, [], ◌∷◌, ◌++◌, map, ◌==◌,
  length, length-append, arith,
}
use mathlib.Core.List.{map-append}
use adaptive_transport.Packet.{Packet, mtu, wire}
use adaptive_transport.Packet.Header
use adaptive_transport.PacketQueue.{PacketQueue, front_next, unacked_next}
use adaptive_transport.PacketQueue.View.{
  in_flight, pending, length-in_flight, length-pending, InOrder,
}
use adaptive_transport.PacketQueue.Refine.{HasRoom, unacked_next_refines}
use adaptive_transport.PacketQueue.Invariant.{IsValid, unacked_next-IsValid}
use adaptive_transport.PacketQueue.Enqueue.{enqueue, enqueue-IsValid, enqueue_refines}

-- Written to any slot, the packet puts the same bytes on the wire as `p`.
pub record IsCopyOf (p : Packet) (write : Packet → Packet) : Type 0 where
  pub size : (f : Packet) → (write f).size ≡ p.size
  pub header : (f : Packet) → Header.IsValid f → Header.IsValid (write f)
  pub bytes : (f : Packet) → Header.IsValid f → wire (write f) ≡ wire p

module _ {S : Type 0} where
  -- The queue is in order with a free front slot and room for one more packet, and its slots are packets.
  pub record IsReady (q : PacketQueue S) : Type 0 where
    pub valid : IsValid q
    pub free : q.front_used ≡ false
    pub room : HasRoom q
    pub slots : (i : ℕ) → Header.IsValid (q.buf i)
    pub fits : (i : ℕ) → (q.buf i).size ≤ mtu + 4

  -- What is done to the queue, for the oldest packet in flight `p`.
  pub record Resent (q q' : PacketQueue S) (p : Packet) : Type 0 where
    pub ready : IsReady q'
    pub settled : in_flight q ≡ p ∷ in_flight q'
    pub waits : map wire (pending q') ≡ map wire (pending q) ++ wire p ∷ []

  pub HasRoom-counts :
      (q q' : PacketQueue S) (n m : ℕ)
      → length (in_flight q) ≡ length (in_flight q') + n
      → length (pending q') ≡ length (pending q) + m
      → m ≤ n
      → q'.size ≡ q.size
      → HasRoom q
      → HasRoom q'
  HasRoom-counts q q' n m ef ep le es room =
      omega (arith, length-in_flight q, length-in_flight q', length-pending q, length-pending q')

  -- The oldest packet in flight is not in the front slot.
  pub oldest-ne-front :
      {q : PacketQueue S} → InOrder q → q.unacked_idx ≢ q.tx_idx → q.unacked_idx ≢ q.front_idx
  oldest-ne-front {q} v some_sent e =
      ground (arith, v.front_in, v.tx_in, v.unacked_in, v.order, some_sent, e)

  module _ (signal : S → S) {q : PacketQueue S} (r : IsReady q)
      (some_sent : q.unacked_idx ≢ q.tx_idx) {write : Packet → Packet}
      (copy : IsCopyOf (q.buf q.unacked_idx) write) where
    abbrev pub oldest : Packet
    oldest = q.buf q.unacked_idx

    abbrev pub again : PacketQueue S
    again = enqueue signal q write

    small : (p : Packet) → (write p).size ≤ 65535
    small p = omega (arith, copy.size p, r.fits q.unacked_idx)

    steps :
        (pending again ≡ pending q ++ write (q.buf q.front_idx) ∷ [])
        × (in_flight again ≡ in_flight q)
        × (again.front_used ≡ false)
    steps = enqueue_refines signal write small r.valid r.room

    again-IsValid : IsValid again
    again-IsValid = enqueue-IsValid signal write small r.valid r.room

    -- The slot of the oldest packet, and the cursors of what is in flight, are as before.
    pub again-oldest : again.buf again.unacked_idx ≡ oldest
    unfolding front_next
    again-oldest = ground (arith, oldest-ne-front r.valid.ordered some_sent)

    again-some_sent : again.unacked_idx ≢ again.tx_idx
    unfolding front_next
    again-some_sent = some_sent

    again-slots : (i : ℕ) → Header.IsValid (again.buf i)
    unfolding front_next
    again-slots i = elim (Bool-cases (i == q.front_idx)) [
      | inl here ↦ rw here (copy.header (q.buf q.front_idx) (r.slots q.front_idx))
      | inr other ↦ rw other (r.slots i)
    ]

    again-fits : (i : ℕ) → (again.buf i).size ≤ mtu + 4
    unfolding front_next
    again-fits i = elim (Bool-cases (i == q.front_idx)) [
      | inl here ↦ rw here (omega (arith, copy.size (q.buf q.front_idx), r.fits q.unacked_idx))
      | inr other ↦ rw other (r.fits i)
    ]

    pub again-Resent : Resent q (unacked_next again) oldest
    again-Resent = record {
      ready = record {
        valid = unacked_next-IsValid again-IsValid again-some_sent;
        free = unfold unacked_next in steps.2;
        room =
            HasRoom-counts q (unacked_next again) 1 1
              (ground (arith, ap length taken.0, ap length steps.1))
              (omega (
                arith,
                ap length taken.1,
                ap length steps.0,
                length-append (pending q) (write (q.buf q.front_idx) ∷ []),
              ))
              (omega arith) (unfold unacked_next front_next in refl) r.room;
        slots = unfold unacked_next in again-slots;
        fits = unfold unacked_next in again-fits;
      };
      settled = sym steps.1 ∙ taken.0 ∙ ap (λ p. p ∷ in_flight (unacked_next again)) again-oldest;
      waits =
          ap (map wire) (taken.1 ∙ steps.0)
          ∙ map-append wire (pending q) (write (q.buf q.front_idx) ∷ [])
          ∙ ap (λ w. map wire (pending q) ++ w ∷ []) same_wire;
    }
      where
        taken :
            (in_flight again ≡ again.buf again.unacked_idx ∷ in_flight (unacked_next again))
            × (pending (unacked_next again) ≡ pending again)
        taken = unacked_next_refines again-IsValid.ordered again-some_sent

        same_wire : wire (write (q.buf q.front_idx)) ≡ wire oldest
        same_wire = copy.bytes (q.buf q.front_idx) (r.slots q.front_idx)
