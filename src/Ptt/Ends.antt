-- ===== src/Ptt/Ends.antt =====
-- Entries that come in at `head0` and go out at the tail.
use native.Mathlib.Nat.{mod-eq_of_lt}
use adaptive_transport.Common.{
  ℕ, zero, suc, ◌+◌, ◌-◌, ◌%◌, ◌≤◌, ◌<◌, ◌≡◌, ◌≢◌, refl, sym, ap, ap₂, ◌∙◌, true, false, some, [],
  ◌∷◌, ◌++◌, drop, ◌==◌, if◌then◌else◌, update, length, arith,
}
use adaptive_transport.Common.Window.{
  window, window-mod, length-window, window-update, window-update_end, drop-window, gap, mod-wrap,
  add-gap-mod,
}
use adaptive_transport.Ptt.{
  Ptt, Entry, step, in_flight_size, readable, rptr, read_advance, set_sent,
}
use adaptive_transport.Ptt.View.{IsValid, in_flight, unread, first}

-- `setSent` in a ring in order with room for one more entry: the number returned is the one of the
-- entry that is added behind those in flight, with no receive time; what can be read stays, and the
-- ring is in order.
pub set_sent_lem :
    (now ts_sent : ℕ) {p : Ptt}
    → IsValid p
    → gap p.size p.head0 p.head1 + gap p.size p.head1 p.tail + 1 < p.size
    → let r = set_sent now ts_sent p in
      IsValid r.1
      × (in_flight r.1
          ≡ in_flight p
            ++ record { seq = r.0; ts_sent = if ts_sent == 0 then now else ts_sent; ts_recv = 0 }
              ∷ [])
      × (unread r.1 ≡ unread p)
unfolding set_sent in_flight unread
set_sent_lem now ts_sent {p} v room = (
  record {
    head0_in = ground (arith, v.head0_in);
    head1_in = v.head1_in;
    tail_in = v.tail_in;
    order = ground (arith, v.head0_in, v.head1_in, v.tail_in, room);
  },
  ap (window (update p.entries p.head0 entry) p.size p.head1) (
        let t : gap p.size (step p.size p.head0) p.head1 ≡ gap p.size p.head0 p.head1 + 1 =
          ground (arith, v.head0_in, v.head1_in, room) in
        t)
      ∙ window-update_end p.entries p.size p.head1 (gap p.size p.head0 p.head1) p.head0 entry
          (sym (add-gap-mod p.size p.head0 p.head1 v.head0_in v.head1_in)) (omega (arith, room)),
  window-update p.entries p.size p.tail (gap p.size p.head1 p.tail) p.head0 entry away,
)
  where
    entry : Entry
    entry = record {
      seq = p.next_seq;
      ts_sent = if ts_sent == 0 then now else ts_sent;
      ts_recv = 0;
    }

    away : (k : ℕ) → k < gap p.size p.head1 p.tail → (p.tail + k) % p.size ≢ p.head0
    away k h same =
        ground
          (arith, v.head0_in, v.head1_in, v.tail_in, room, same, h, mod-wrap p.size (p.tail + k))

-- `readable ()` and `inFlight ()` are the lengths of the two lists, and `rptr ()` is the first entry
-- that can be read, or the null pointer if there is none.
pub rptr_lem :
    {p : Ptt}
    → IsValid p
    → (readable p ≡ length (unread p))
      × (in_flight_size p ≡ length (in_flight p))
      × (rptr p ≡ first (unread p))
unfolding readable in_flight_size rptr in_flight unread first
rptr_lem {p} v = (
  sym (length-window p.entries p.size p.tail (gap p.size p.head1 p.tail)),
  sym (length-window p.entries p.size p.head1 (gap p.size p.head0 p.head1)),
  by_count (gap p.size p.head1 p.tail) refl,
)
  where
    by_count :
        (n : ℕ) → gap p.size p.head1 p.tail ≡ n → rptr p ≡ first (window p.entries p.size p.tail n)
    by_count zero e =
        let none_left : (readable p == 0) ≡ true = ground (arith, e) in rw none_left refl
    by_count (suc n) e =
        let some_left : (readable p == 0) ≡ false = ground (arith, e) in
        rw some_left (ap (λ j. some (p.entries j)) (sym (mod-eq_of_lt v.tail_in)))

-- `readAdvance (num)`, for at most as many entries as can be read, drops exactly the first `num` of
-- them; those in flight stay, and the ring is in order.
pub read_advance_lem :
    (num : ℕ) {p : Ptt}
    → IsValid p
    → num ≤ length (unread p)
    → IsValid (read_advance p num)
      × (unread (read_advance p num) ≡ drop num (unread p))
      × (in_flight (read_advance p num) ≡ in_flight p)
unfolding read_advance unread in_flight
read_advance_lem num {p} v h = (
  record {
    head0_in = v.head0_in;
    head1_in = v.head1_in;
    tail_in = ground (arith, v.tail_in, v.head1_in, le);
    order = ground (arith, v.head0_in, v.head1_in, v.tail_in, v.order, le);
  },
  ap₂ (window p.entries p.size)
        (let t : (read_advance p num).tail ≡ (p.tail + num) % p.size =
            ground (arith, v.tail_in, v.head1_in, le, mod-wrap p.size (p.tail + num)) in
          t)
        (let t : gap p.size p.head1 (read_advance p num).tail ≡ gap p.size p.head1 p.tail - num =
            ground (arith, v.tail_in, v.head1_in, le) in
          t)
      ∙ window-mod p.entries p.size (p.tail + num) (gap p.size p.head1 p.tail - num)
      ∙ sym (drop-window p.entries p.size p.tail num (gap p.size p.head1 p.tail) le),
  refl,
)
  where
    le : num ≤ gap p.size p.head1 p.tail
    le = omega (arith, h, length-window p.entries p.size p.tail (gap p.size p.head1 p.tail))

pub length-unread-lt : {p : Ptt} → IsValid p → length (unread p) < p.size
unfolding unread
length-unread-lt {p} v =
    omega (arith, v.order, length-window p.entries p.size p.tail (gap p.size p.head1 p.tail))
