-- ===== src/PacketQueue/View.antt =====
-- The queue as two lists of packets: those in flight and those that wait to be sent.
use adaptive_transport.Common.{
  ℕ, zero, suc, ◌+◌, ◌*◌, ◌≤◌, ◌<◌, ◌≡◌, ◌≢◌, ◌∙◌, sym, ap, ap₂, List, [], ◌∷◌, ◌++◌, length, ◌%◌,
  arith,
}
use native.Mathlib.Nat.{mod-eq_of_lt}
use adaptive_transport.Common.Window.{
  window, length-window, window-update, window-mod, gap, mod-wrap,
}
use adaptive_transport.Packet.{Packet}
use adaptive_transport.PacketQueue.{PacketQueue, next_slot, modify}

-- The bytes that a list of packets puts on the wire.
abbrev pub total : List Packet → ℕ
total [] = 0
total (p ∷ ps) = p.size + total ps

pub total-append : (ps qs : List Packet) → total (ps ++ qs) ≡ total ps + total qs
total-append [] qs = omega arith
total-append (p ∷ ps) qs = omega (arith, total-append ps qs)

pub total-window :
    (f : ℕ → Packet) (size i n : ℕ)
    → ((k : ℕ) → (f k).size ≤ 65535)
    → total (window f size i n) ≤ n * 65535
total-window f size i zero small = omega arith
total-window f size i (suc n) small =
    omega (arith, small (i % size), total-window f size (suc i) n small)

pub next_slot-mod : (size i : ℕ) → i < size → next_slot size i ≡ suc i % size
next_slot-mod size i h = ground (arith, mod-wrap size (suc i))

window-next_slot :
    (f : ℕ → Packet) (size i n : ℕ)
    → i < size
    → window f size (next_slot size i) n ≡ window f size (suc i) n
window-next_slot f size i n h =
    ap (λ j. window f size j n) (next_slot-mod size i h) ∙ window-mod f size (suc i) n

-- The window that begins at slot `i`, by its first slot.
pub window-first :
    (f : ℕ → Packet) (size i n : ℕ)
    → i < size
    → window f size i (suc n) ≡ f i ∷ window f size (next_slot size i) n
window-first f size i n h = ap₂ ◌∷◌ (ap f (mod-eq_of_lt h)) (sym (window-next_slot f size i n h))

module _ {S : Type 0} where
  abbrev pub in_flight_count : PacketQueue S → ℕ
  in_flight_count q = gap q.size q.tx_idx q.unacked_idx

  abbrev pub pending_count : PacketQueue S → ℕ
  pending_count q = gap q.size q.front_idx q.tx_idx

  unfoldable pub in_flight : PacketQueue S → List Packet
  in_flight q = window q.buf q.size q.unacked_idx (in_flight_count q)

  unfoldable pub pending : PacketQueue S → List Packet
  pending q = window q.buf q.size q.tx_idx (pending_count q)

  pub length-in_flight : (q : PacketQueue S) → length (in_flight q) ≡ in_flight_count q
  unfolding in_flight
  length-in_flight q = length-window q.buf q.size q.unacked_idx (in_flight_count q)

  pub length-pending : (q : PacketQueue S) → length (pending q) ≡ pending_count q
  unfolding pending
  length-pending q = length-window q.buf q.size q.tx_idx (pending_count q)

  -- The cursors lie in the ring and in order, and fewer than `size` slots are taken.
  pub record InOrder (q : PacketQueue S) : Type 0 where
    pub front_in : q.front_idx < q.size
    pub tx_in : q.tx_idx < q.size
    pub unacked_in : q.unacked_idx < q.size
    pub order : in_flight_count q + pending_count q < q.size

  -- Neither list meets the front slot.
  pub pending-modify_front :
      (q : PacketQueue S) (f : Packet → Packet)
      → InOrder q
      → pending (modify q q.front_idx f) ≡ pending q
  unfolding pending
  pending-modify_front q f v =
      window-update q.buf q.size q.tx_idx (pending_count q) q.front_idx (f (q.buf q.front_idx)) away
    where
      away : (k : ℕ) → k < pending_count q → (q.tx_idx + k) % q.size ≢ q.front_idx
      away k h e =
          ground (arith, v.front_in, v.tx_in, v.order, e, h, mod-wrap q.size (q.tx_idx + k))

  pub in_flight-modify_front :
      (q : PacketQueue S) (f : Packet → Packet)
      → InOrder q
      → in_flight (modify q q.front_idx f) ≡ in_flight q
  unfolding in_flight
  in_flight-modify_front q f v =
      window-update q.buf q.size q.unacked_idx (in_flight_count q) q.front_idx
        (f (q.buf q.front_idx)) away
    where
      away : (k : ℕ) → k < in_flight_count q → (q.unacked_idx + k) % q.size ≢ q.front_idx
      away k h e = ground (
        arith,
        v.front_in,
        v.tx_in,
        v.unacked_in,
        v.order,
        e,
        h,
        mod-wrap q.size (q.unacked_idx + k),
      )
