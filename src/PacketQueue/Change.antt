-- ===== src/PacketQueue/Change.antt =====
-- A write to the packet that `find` returned, in terms of the two lists of packets.
use adaptive_transport.Common.{
  ℕ, zero, suc, ◌+◌, ◌%◌, ◌≤◌, ◌<◌, ◌≡◌, ◌≢◌, refl, sym, ap, ap₂, ◌∙◌, true, false, inl, inr,
  Bool-cases, some, List, [], ◌∷◌, ◌==◌, if◌then◌else◌, arith,
}
use adaptive_transport.Common.Window.{window, window-update, gap, mod-wrap}
use adaptive_transport.Packet.{Packet, seq}
use adaptive_transport.PacketQueue.{PacketQueue, modify, next_slot, ended, find_from, find}
use adaptive_transport.PacketQueue.View.{
  in_flight_count, pending_count, in_flight, pending, InOrder, window-first,
}

-- The list with its first packet under number `s` changed by `f`.
unfoldable pub change_first : ℕ → (Packet → Packet) → List Packet → List Packet
change_first s f [] = []
change_first s f (p ∷ ps) = if seq p == s then f p ∷ ps else p ∷ change_first s f ps

module _ {S : Type 0} where
  -- The slot found has the number, and lies between the start and the transmit cursor.
  find_from-slot :
      (q : PacketQueue S) (s n fuel ii : ℕ) {i : ℕ}
      → q.tx_idx < q.size
      → ii < q.size
      → gap q.size q.tx_idx ii ≡ n
      → find_from fuel q s ii ≡ ended (some i)
      → (i < q.size)
        × (1 ≤ gap q.size q.tx_idx i)
        × (gap q.size q.tx_idx i ≤ n)
        × ((seq (q.buf i) == s) ≡ true)
  unfolding find_from
  find_from-slot q s n zero ii tx_in here e found = absurd (ground arith)
  find_from-slot q s zero (suc fuel) ii tx_in here e found = absurd (ground arith)
  find_from-slot q s (suc n) (suc fuel) ii {i} tx_in here e found =
      ground (arith, find_from-slot q s n fuel (next_slot q.size ii) {i = i} tx_in)

  window-change :
      (q : PacketQueue S) (f : Packet → Packet) (s n fuel ii : ℕ) {i : ℕ}
      → q.tx_idx < q.size
      → ii < q.size
      → gap q.size q.tx_idx ii ≡ n
      → find_from fuel q s ii ≡ ended (some i)
      → window (modify q i f).buf q.size ii n ≡ change_first s f (window q.buf q.size ii n)
  unfolding find_from change_first
  window-change q f s n zero ii tx_in here e found = absurd (ground arith)
  window-change q f s zero (suc fuel) ii tx_in here e found = refl
  window-change q f s (suc n) (suc fuel) ii {i} tx_in here e found =
      window-first (modify q i f).buf q.size ii n here
      ∙ core (
          window-change q f s n fuel (next_slot q.size ii) tx_in (ground (arith, here))
            (ground (arith, here, tx_in, e)))
      ∙ sym (ap (change_first s f) (window-first q.buf q.size ii n here))
    where
      away : (k : ℕ) → k < n → (next_slot q.size ii + k) % q.size ≢ ii
      away k h same =
          ground (arith, tx_in, here, e, h, same, mod-wrap q.size (next_slot q.size ii + k))

      other : (seq (q.buf ii) == s) ≡ false → i ≢ ii
      other miss same =
          let hit = (find_from-slot q s (suc n) (suc fuel) ii tx_in here e found).3 in
          ground (arith, miss, rw same at hit)

      first : (seq (q.buf ii) == s) ≡ true → i ≡ ii
      first hit = ground (arith, here, tx_in, e, found, hit)

      next :
          (seq (q.buf ii) == s) ≡ false → find_from fuel q s (next_slot q.size ii) ≡ ended (some i)
      next miss = ground (arith, here, tx_in, e, found, miss)

      core :
          (find_from fuel q s (next_slot q.size ii) ≡ ended (some i)
            → window (modify q i f).buf q.size (next_slot q.size ii) n
              ≡ change_first s f (window q.buf q.size (next_slot q.size ii) n))
          → (modify q i f).buf ii ∷ window (modify q i f).buf q.size (next_slot q.size ii) n
            ≡ change_first s f (q.buf ii ∷ window q.buf q.size (next_slot q.size ii) n)
      core rest = elim (Bool-cases (seq (q.buf ii) == s)) [
        | inl hit ↦ rw hit (
            ap₂ ◌∷◌ (let at : i ≡ ii = first hit in ground (arith, at)) (
              window-update q.buf q.size (next_slot q.size ii) n i (f (q.buf i))
                (λ k h same. away k h (same ∙ first hit))))
        | inr miss ↦
            rw miss
              (ap₂ ◌∷◌ (let off : i ≢ ii = other miss in ground (arith, off)) (rest (next miss)))
      ]

  -- A write to the packet that `find` returns is a write to the first packet in flight with that number;
  -- the packets that wait are not touched.
  pub modify_found :
      {q : PacketQueue S} (f : Packet → Packet) (s : ℕ) {i : ℕ}
      → InOrder q
      → find q s ≡ ended (some i)
      → (in_flight (modify q i f) ≡ change_first s f (in_flight q))
        × (pending (modify q i f) ≡ pending q)
  unfolding find in_flight pending
  modify_found {q} f s {i} v found = (
    window-change q f s (in_flight_count q) q.size q.unacked_idx v.tx_in v.unacked_in refl found,
    window-update q.buf q.size q.tx_idx (pending_count q) i (f (q.buf i)) away,
  )
    where
      at :
          (i < q.size)
          × (1 ≤ gap q.size q.tx_idx i)
          × (gap q.size q.tx_idx i ≤ in_flight_count q)
          × ((seq (q.buf i) == s) ≡ true)
      at =
          find_from-slot q s (in_flight_count q) q.size q.unacked_idx v.tx_in v.unacked_in refl
            found

      away : (k : ℕ) → k < pending_count q → (q.tx_idx + k) % q.size ≢ i
      away k h same = ground (
        arith,
        v.front_in,
        v.tx_in,
        v.order,
        at.0,
        at.1,
        at.2,
        same,
        h,
        mod-wrap q.size (q.tx_idx + k),
      )
