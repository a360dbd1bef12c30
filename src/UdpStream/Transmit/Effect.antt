-- ===== src/UdpStream/Transmit/Effect.antt =====
-- What a round of the sender's thread does to the two lists of packets and to the wire.
use adaptive_transport.Common.{
  ℕ, ◌+◌, ◌%◌, ◌<◌, ◌≡◌, ◌≢◌, refl, sym, ap, ap₂, ◌∙◌, some, List, [], ◌∷◌, ◌++◌, update, arith,
}
use adaptive_transport.Common.Window.{window-update, gap, mod-wrap}
use adaptive_transport.Packet.{Packet, set_ts_sent, wire}
use adaptive_transport.PacketQueue.{PacketQueue, modify, tx, tx_next, next_slot, Wake, slot}
use adaptive_transport.PacketQueue.View.{in_flight_count, in_flight, pending, InOrder}
use adaptive_transport.PacketQueue.Refine.{tx_next_refines}
use adaptive_transport.PacketQueue.Search.{tx_slot}
use adaptive_transport.UdpStream.Transmit.{Link, hold, send_slot, transmit}

module _ {S : Type 0} (signal : S → S) {q : PacketQueue S} (v : InOrder q)
    (waits : q.tx_idx ≢ q.front_idx) (f : Packet → Packet) where
  abbrev pub written : PacketQueue S
  written = modify q q.tx_idx f

  written-InOrder : InOrder written
  written-InOrder = record {
    front_in = v.front_in;
    tx_in = v.tx_in;
    unacked_in = v.unacked_in;
    order = v.order;
  }

  in_flight-written : in_flight written ≡ in_flight q
  unfolding in_flight
  in_flight-written =
      window-update q.buf q.size q.unacked_idx (in_flight_count q) q.tx_idx (f (q.buf q.tx_idx))
        away
    where
      away : (k : ℕ) → k < in_flight_count q → (q.unacked_idx + k) % q.size ≢ q.tx_idx
      away k h same =
          ground (arith, v.tx_in, v.unacked_in, same, h, mod-wrap q.size (q.unacked_idx + k))

  pending-written : pending (tx_next signal written) ≡ pending (tx_next signal q)
  unfolding pending tx_next
  pending-written =
      window-update q.buf q.size (next_slot q.size q.tx_idx)
        (gap q.size q.front_idx (next_slot q.size q.tx_idx)) q.tx_idx (f (q.buf q.tx_idx)) away
    where
      away :
          (k : ℕ)
          → k < gap q.size q.front_idx (next_slot q.size q.tx_idx)
          → (next_slot q.size q.tx_idx + k) % q.size ≢ q.tx_idx
      away k h same = ground (
        arith,
        v.tx_in,
        v.front_in,
        waits,
        same,
        h,
        mod-wrap q.size (next_slot q.size q.tx_idx + k),
      )

  -- The packet at the transmit cursor, changed by `f`, goes in flight.
  pub send_lem :
      (pending q ≡ q.buf q.tx_idx ∷ pending (tx_next signal written))
      × (in_flight (tx_next signal written) ≡ in_flight q ++ f (q.buf q.tx_idx) ∷ [])
  send_lem = (
    (tx_next_refines signal v waits).0 ∙ ap (◌∷◌ (q.buf q.tx_idx)) (sym pending-written),
    (tx_next_refines signal written-InOrder waits).1
        ∙ ap₂ ◌++◌ in_flight-written (ap (λ p. p ∷ []) (ground arith)),
  )

pub wire-set_ts_sent : (p : Packet) (now : ℕ) → wire (set_ts_sent p now) ≡ wire p
unfolding wire set_ts_sent
wire-set_ts_sent p now = refl

-- Where `tx` returns a slot and the bucket lets its packet through, for a queue in order the round
-- ends: the first packet that waits goes out with its bytes, unchanged, and joins those in flight,
-- behind them, with the time of its sending; the others wait on.
pub transmit_lem :
    {S : Type 0} (signal : S → S) (credit : ℕ → ℕ → ℕ → ℕ) (wakes : List (Wake S))
    (tries : List (ℕ × ℕ)) (now : ℕ) (l : Link S) {q : PacketQueue S} {i ts_last : ℕ}
    → tx l.queue wakes ≡ slot i q
    → InOrder q
    → hold credit l.ts_last (q.buf i).size tries ≡ some ts_last
    → (l' : Link S) × (p : Packet) × (transmit credit signal wakes tries now l ≡ some l')
      × (pending q ≡ p ∷ pending l'.queue)
      × (in_flight l'.queue ≡ in_flight q ++ set_ts_sent p now ∷ [])
      × (l'.sent ≡ l.sent ++ wire p ∷ [])
unfolding transmit send_slot
transmit_lem signal credit wakes tries now l {q} {i} {ts_last} taken v passes = (
  send_slot signal now l q q.tx_idx ts_last,
  q.buf q.tx_idx,
  rw (taken, transmit, passes) (ap (λ j. some (send_slot signal now l q j ts_last)) at),
  effect.0,
  effect.1,
  ap (λ w. l.sent ++ w ∷ []) same_wire,
)
  where
    at : i ≡ q.tx_idx
    at = (tx_slot l.queue wakes taken).0

    effect :
        (pending q
          ≡ q.buf q.tx_idx ∷ pending (tx_next signal (modify q q.tx_idx (λ p. set_ts_sent p now))))
        × (in_flight (tx_next signal (modify q q.tx_idx (λ p. set_ts_sent p now)))
            ≡ in_flight q ++ set_ts_sent (q.buf q.tx_idx) now ∷ [])
    effect = send_lem signal v (tx_slot l.queue wakes taken).1 (λ p. set_ts_sent p now)

    same_wire :
        wire (update q.buf q.tx_idx (set_ts_sent (q.buf q.tx_idx) now) q.tx_idx)
        ≡ wire (q.buf q.tx_idx)
    same_wire =
        let here : update q.buf q.tx_idx (set_ts_sent (q.buf q.tx_idx) now) q.tx_idx
            ≡ set_ts_sent (q.buf q.tx_idx) now =
          ground arith in
        ap wire here ∙ wire-set_ts_sent (q.buf q.tx_idx) now
