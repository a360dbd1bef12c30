-- ===== src/Ptt/InOrder.antt =====
-- `setRecv` for the oldest packet in flight, the path that the code calls fast.
use adaptive_transport.Common.{
  ℕ, ◌+◌, ◌%◌, ◌<◌, ◌≡◌, ◌≢◌, refl, sym, ap, ap₂, ◌∙◌, true, false, List, [], ◌∷◌, ◌++◌, ◌==◌,
  if◌then◌else◌, arith,
}
use adaptive_transport.Common.Window.{window, window-update, gap, mod-wrap}
use adaptive_transport.Ptt.{Ptt, Entry, step, set_entry, skip_received, set_recv}
use adaptive_transport.Ptt.View.{IsValid, in_flight, unread, drop_received, take_received}
use adaptive_transport.Ptt.Skip.{past, past_lem, Skipped, skip_received_lem}

abbrev marked : Ptt → ℕ → Entry
marked p ts = record (p.entries p.head1) { ts_recv = ts }

module _ {p : Ptt} (v : IsValid p) (some_left : p.head1 ≢ p.head0) (ts : ℕ) where
  -- The mark changes the first entry in flight only.
  mark_lem :
      (in_flight (set_entry p p.head1 ts) ≡ marked p ts ∷ in_flight (past p))
      × (unread (set_entry p p.head1 ts) ≡ unread p)
  unfolding in_flight unread
  mark_lem = (
    (past_lem {p = set_entry p p.head1 ts}
          (record {
            head0_in = v.head0_in;
            head1_in = v.head1_in;
            tail_in = v.tail_in;
            order = v.order;
          })
          some_left).0
        ∙ ap₂ ◌∷◌ (ground arith) (
            window-update p.entries p.size (step p.size p.head1)
              (gap p.size p.head0 (step p.size p.head1)) p.head1 (marked p ts) ahead),
    window-update p.entries p.size p.tail (gap p.size p.head1 p.tail) p.head1 (marked p ts) behind,
  )
    where
      ahead :
          (k : ℕ)
          → k < gap p.size p.head0 (step p.size p.head1)
          → (step p.size p.head1 + k) % p.size ≢ p.head1
      ahead k h same = ground (
        arith,
        v.head0_in,
        v.head1_in,
        some_left,
        same,
        h,
        mod-wrap p.size (step p.size p.head1 + k),
      )

      behind : (k : ℕ) → k < gap p.size p.head1 p.tail → (p.tail + k) % p.size ≢ p.head1
      behind k h same = ground (arith, v.head1_in, v.tail_in, same, h, mod-wrap p.size (p.tail + k))

in_flight-nil : (p : Ptt) → p.head1 ≡ p.head0 → in_flight p ≡ []
unfolding in_flight
in_flight-nil p here =
    let t : gap p.size p.head0 p.head1 ≡ 0 = ground (arith, here) in
    ap (window p.entries p.size p.head1) t

-- `setRecv` with a receive time, for the number of the oldest packet in flight, in a ring in order: it
-- reports success, the packet's entry with that time can be read behind those that could be before,
-- followed by the entries behind it up to the first that is not received; those from there on are in
-- flight.
pub set_recv-in_order :
    (now s ts : ℕ) {p : Ptt} {x : Entry} {xs : List Entry}
    → IsValid p
    → in_flight p ≡ x ∷ xs
    → x.seq ≡ s
    → ts ≢ 0
    → let r = set_recv now s ts p in
      (r.0 ≡ true)
      × IsValid r.1
      × (in_flight r.1 ≡ drop_received xs)
      × (unread r.1 ≡ unread p ++ record x { ts_recv = ts } ∷ take_received xs)
unfolding set_recv drop_received take_received
set_recv-in_order now s ts {p} {x} {xs} v e number given =
    rw (chosen, found)
      (
        refl,
        done.valid,
        done.flies ∙ ap drop_received (mark.0 ∙ ap (◌∷◌ (marked p ts)) (sym same.1)) ∙ rw set refl,
        done.reads
            ∙ ap₂ ◌++◌ mark.1 (
                ap take_received (mark.0 ∙ ap (◌∷◌ (marked p ts)) (sym same.1))
                ∙ rw (set, same.0) refl),
      )
  where
    some_left : p.head1 ≢ p.head0
    some_left here =
        let none_fly : in_flight p ≡ [] = in_flight-nil p here in absurd (cc (e, none_fly))

    same : (x ≡ p.entries p.head1) × (xs ≡ in_flight (past p))
    same =
        let split = (past_lem v some_left).0 in
        (
          (let t : x ≡ p.entries p.head1 = cc (e, split) in t),
          (let t : xs ≡ in_flight (past p) = cc (e, split) in t),
        )

    chosen : (if ts == 0 then now else ts) ≡ ts
    chosen = ground (arith, given)

    set : (ts == 0) ≡ false
    set = ground (arith, given)

    found : ((p.entries p.head1).seq == s) ≡ true
    found =
        let t : (p.entries p.head1).seq ≡ s = ap (λ (y : Entry). y.seq) (sym same.0) ∙ number in
        ground (arith, t)

    mark :
        (in_flight (set_entry p p.head1 ts) ≡ marked p ts ∷ in_flight (past p))
        × (unread (set_entry p p.head1 ts) ≡ unread p)
    mark = mark_lem v some_left ts

    done : Skipped (set_entry p p.head1 ts) (skip_received p.size (set_entry p p.head1 ts))
    done = skip_received_lem (record {
      head0_in = v.head0_in;
      head1_in = v.head1_in;
      tail_in = v.tail_in;
      order = v.order;
    })
