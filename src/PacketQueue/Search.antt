-- ===== src/PacketQueue/Search.antt =====
-- What `find`, `unacked` and `tx` return, in terms of the two lists of packets.
use adaptive_transport.Common.{
  ℕ, zero, suc, ◌<◌, ◌≡◌, ◌≢◌, refl, sym, ap, ◌∙◌, true, false, ◌⊎◌, inl, inr, Bool-cases, Option,
  none, some, List, [], ◌∷◌, length, ◌==◌, if◌then◌else◌, arith,
}
use mathlib.Core.Option
use native.Mathlib.Nat.{mod-eq_of_lt}
use adaptive_transport.Common.Window.{window, gap}
use adaptive_transport.Packet.{Packet, seq}
use adaptive_transport.PacketQueue.{
  PacketQueue, next_slot, Lookup, running, ended, find_from, find, unacked, unacked_next, tx, Wake,
  timed_out, woken, slot,
}
use adaptive_transport.PacketQueue.View.{
  in_flight_count, in_flight, length-in_flight, InOrder, window-first,
}
use adaptive_transport.PacketQueue.Refine.{unacked_next_refines}

-- The first packet of a list with a given sequence number, and the first packet at all.
unfoldable pub first_with : ℕ → List Packet → Option Packet
first_with s [] = none
first_with s (p ∷ ps) = if seq p == s then some p else first_with s ps

unfoldable pub first : List Packet → Option Packet
first [] = none
first (p ∷ ps) = some p

pub Lookup-cases :
    (l : Lookup) → (l ≡ running) ⊎ ((l ≡ ended none) ⊎ ((i : ℕ) × (l ≡ ended (some i))))
Lookup-cases running = inl refl
Lookup-cases (ended none) = inr (inl refl)
Lookup-cases (ended (some i)) = inr (inr (i, refl))

module _ {S : Type 0} where
  find_from-first_with :
      (q : PacketQueue S) (s n fuel ii : ℕ)
      → q.tx_idx < q.size
      → ii < q.size
      → gap q.size q.tx_idx ii ≡ n
      → n < fuel
      → (r : Option ℕ) × (find_from fuel q s ii ≡ ended r)
        × (Option.map q.buf r ≡ first_with s (window q.buf q.size ii n))
  unfolding find_from first_with
  find_from-first_with q s n zero ii tx_in here e enough = absurd (omega arith)
  find_from-first_with q s zero (suc fuel) ii tx_in here e enough =
      let same : (ii == q.tx_idx) ≡ true = ground arith in (none, rw same refl, refl)
  find_from-first_with q s (suc n) (suc fuel) ii tx_in here e enough =
      let goes_on : (ii == q.tx_idx) ≡ false = ground (arith, e) in
      let view = window-first q.buf q.size ii n here in
      elim (Bool-cases (seq (q.buf ii) == s)) [
        | inl hit ↦ (some ii, rw (goes_on, hit) refl, sym (ap (first_with s) view ∙ rw hit refl))
        | inr miss ↦
            let (r, ends, same) =
              find_from-first_with q s n fuel (next_slot q.size ii) tx_in (ground (arith, here))
                (ground (arith, here, tx_in, e)) (omega arith) in
            (r, rw (goes_on, miss) ends, same ∙ sym (ap (first_with s) view ∙ rw miss refl))
      ]

  -- In a queue in order the loop of `find` ends within `size` rounds, with the slot of the first
  -- packet in flight with the sequence number asked for, and with the null pointer exactly if there is
  -- none.
  pub find_refines :
      {q : PacketQueue S} (s : ℕ)
      → InOrder q
      → (r : Option ℕ) × (find q s ≡ ended r) × (Option.map q.buf r ≡ first_with s (in_flight q))
  unfolding find in_flight
  find_refines {q} s v =
      find_from-first_with q s (in_flight_count q) q.size q.unacked_idx v.tx_in v.unacked_in refl
        (omega (arith, v.order))

  -- In a queue in order `unacked` returns the slot of the oldest packet in flight, or the null pointer
  -- if none is.
  pub unacked_refines :
      {q : PacketQueue S} → InOrder q → Option.map q.buf (unacked q) ≡ first (in_flight q)
  unfolding unacked in_flight first
  unacked_refines {q} v = by_count (in_flight_count q) refl
    where
      by_count :
          (n : ℕ)
          → in_flight_count q ≡ n
          → Option.map q.buf (unacked q) ≡ first (window q.buf q.size q.unacked_idx n)
      by_count zero e =
          let same : (q.unacked_idx == q.tx_idx) ≡ true =
            ground (arith, v.order, v.tx_in, v.unacked_in, e) in
          rw same
      by_count (suc n) e =
          let other : (q.unacked_idx == q.tx_idx) ≡ false = ground (arith, v.order, e) in
          rw other (ap (λ j. some (q.buf j)) (sym (mod-eq_of_lt v.unacked_in)))

  -- Whatever the waits bring, a slot that `tx` returns is the one at the transmit cursor and holds a
  -- packet that waits to be sent.
  pub tx_slot :
      (q : PacketQueue S) (wakes : List (Wake S)) {i : ℕ} {q' : PacketQueue S}
      → tx q wakes ≡ slot i q'
      → (i ≡ q'.tx_idx) × (q'.tx_idx ≢ q'.front_idx)
  unfolding tx
  tx_slot q [] e = ground arith
  tx_slot q (timed_out ∷ wakes) e = ground arith
  tx_slot q (woken q1 ∷ wakes) {i} {q'} e = ground (arith, tx_slot q1 wakes {i = i} {q' = q'})

  -- The null pointer, where nothing is in flight; else the cursor's slot, which holds the oldest packet.
  pub unacked-nil : {q : PacketQueue S} → InOrder q → in_flight q ≡ [] → unacked q ≡ none
  unfolding unacked
  unacked-nil {q} v e =
      ground (arith, v.order, v.tx_in, v.unacked_in, ap length e, length-in_flight q)

  pub unacked-cons :
      {q : PacketQueue S} {p : Packet} {ps : List Packet}
      → InOrder q
      → in_flight q ≡ p ∷ ps
      → (unacked q ≡ some q.unacked_idx)
        × (q.unacked_idx ≢ q.tx_idx)
        × (q.buf q.unacked_idx ≡ p)
        × (in_flight (unacked_next q) ≡ ps)
  unfolding unacked
  unacked-cons {q} v e = (
    ground (arith, apart),
    apart,
    cc (e, (unacked_next_refines v apart).0),
    cc (e, (unacked_next_refines v apart).0),
  )
    where
      apart : q.unacked_idx ≢ q.tx_idx
      apart same = ground (arith, same, ap length e, length-in_flight q)
