-- ===== src/Ptt/Found.antt =====
-- What `setRecv` does with the entry that the search has found.
use native.Mathlib.Nat.{mod-lt}
use adaptive_transport.Common.{
  ℕ, suc, ◌+◌, ◌-◌, ◌%◌, ◌≡◌, ◌≢◌, refl, sym, ap, ap₂, ◌∙◌, false, inl, inr, Bool-cases, List, [],
  ◌∷◌, ◌++◌, append-nil, append_assoc, ◌==◌, ltb, if◌then◌else◌, length, arith,
}
use adaptive_transport.Common.Window.{
  window, window-update, window-add, window-mod, length-window, mod-ne, gap, mod-wrap, add-gap-mod,
}
use adaptive_transport.Ptt.{Ptt, Entry, index_difference, set_entry, on_found, skip_received}
use adaptive_transport.Ptt.View.{IsValid, in_flight, unread, drop_received, take_received}
use adaptive_transport.Ptt.Search.{place}
use adaptive_transport.Ptt.Skip.{Skipped, skip_received_lem}

-- What the receive time `ts` for `y` makes of the ring, with `before` in front of `y` in flight and `post` behind.
abbrev pub Stamped :
    (p q : Ptt) (ts : ℕ) (before : List Entry) (y : Entry) (post : List Entry) → Type 0
Stamped p q ts before y post =
    let y' = record y { ts_recv = ts } in
    let far = ltb 5 (length before) in
    IsValid q
    × (in_flight q ≡ (if far then drop_received post else before ++ y' ∷ post))
    × (unread q ≡ unread p ++ (if far then before ++ y' ∷ take_received post else []))

-- What the write to the entry `k` places behind the oldest one comes to.
module _ {p : Ptt} (v : IsValid p) (k m : ℕ) (count : gap p.size p.head0 p.head1 ≡ k + suc m)
    (ts : ℕ) where
  abbrev found_at : ℕ
  found_at = place p p.head1 k

  abbrev before : List Entry
  before = window p.entries p.size p.head1 k

  abbrev behind : List Entry
  behind = window p.entries p.size (suc (p.head1 + k)) m

  abbrev marked : Entry
  marked = record (p.entries found_at) { ts_recv = ts }

  abbrev written : Ptt
  written = set_entry p found_at ts

  marked_window : window written.entries p.size (p.head1 + k) (suc m) ≡ marked ∷ behind
  marked_window = ap₂ ◌∷◌ (ground arith) (
      window-update p.entries p.size (suc (p.head1 + k)) m found_at marked (λ j h same.
        mod-ne p.size (p.head1 + k) (suc j) (omega arith)
          (ground (arith, v.head0_in, v.head1_in, count, h))
          (ap (λ (i : ℕ). i % p.size) (omega arith) ∙ same)))

  not_before : window written.entries p.size p.head1 k ≡ before
  not_before = window-update p.entries p.size p.head1 k found_at marked (λ j h same.
      mod-ne p.size (p.head1 + j) (k - j) (omega (arith, h))
        (ground (arith, v.head0_in, v.head1_in, count, h))
        (ap (λ (i : ℕ). i % p.size) (omega (arith, h)) ∙ sym same))

  not_read : unread written ≡ unread p
  unfolding unread
  not_read =
      window-update p.entries p.size p.tail (gap p.size p.head1 p.tail) found_at marked (λ j h same.
        ground (
          arith,
          v.head0_in,
          v.head1_in,
          v.tail_in,
          v.order,
          count,
          same,
          h,
          mod-wrap p.size (p.tail + j),
          mod-wrap p.size (p.head1 + k),
        ))

  written-IsValid : IsValid written
  written-IsValid = record {
    head0_in = v.head0_in;
    head1_in = v.head1_in;
    tail_in = v.tail_in;
    order = v.order;
  }

  written_lem : in_flight written ≡ before ++ marked ∷ behind
  unfolding in_flight
  written_lem =
      ap (window written.entries p.size p.head1) count
      ∙ window-add written.entries p.size p.head1 k (suc m)
      ∙ ap₂ ◌++◌ not_before marked_window

  abbrev moved : Ptt
  moved = record written { head1 = found_at }

  moved-IsValid : IsValid moved
  moved-IsValid = record {
    head0_in = v.head0_in;
    head1_in = mod-lt (p.head1 + k) (omega (arith, v.head1_in));
    tail_in = v.tail_in;
    order =
        ground
          (arith, v.head0_in, v.head1_in, v.tail_in, v.order, count, mod-wrap p.size (p.head1 + k));
  }

  moved_lem : (in_flight moved ≡ marked ∷ behind) × (unread moved ≡ unread p ++ before)
  unfolding in_flight unread
  moved_lem = (
    ap (window written.entries p.size found_at) left
        ∙ window-mod written.entries p.size (p.head1 + k) (suc m)
        ∙ marked_window,
    ap (window written.entries p.size p.tail) taken
        ∙ window-add written.entries p.size p.tail (gap p.size p.head1 p.tail) k
        ∙ ap₂ ◌++◌ not_read (
            sym (window-mod written.entries p.size (p.tail + gap p.size p.head1 p.tail) k)
            ∙ ap (λ j. window written.entries p.size j k)
                (add-gap-mod p.size p.head1 p.tail v.head1_in v.tail_in)
            ∙ not_before),
  )
    where
      left : gap p.size p.head0 found_at ≡ suc m
      left = ground (arith, v.head0_in, v.head1_in, count, mod-wrap p.size (p.head1 + k))

      taken : gap p.size found_at p.tail ≡ gap p.size p.head1 p.tail + k
      taken =
          ground (
            arith,
            v.head0_in,
            v.head1_in,
            v.tail_in,
            v.order,
            count,
            mod-wrap p.size (p.head1 + k),
          )

  pub on_found_lem :
      ts ≢ 0 → Stamped p (on_found p found_at ts) ts before (p.entries found_at) behind
  unfolding on_found drop_received take_received
  on_found_lem given = elim (Bool-cases (ltb 5 k)) [
    | inl far ↦
        let done : Skipped moved (skip_received p.size moved) = skip_received_lem moved-IsValid in
        rw (shown, tested, far)
          (
            done.valid,
            done.flies ∙ ap drop_received moved_lem.0 ∙ rw set refl,
            done.reads
                ∙ ap₂ ◌++◌ moved_lem.1 (ap take_received moved_lem.0 ∙ rw set refl)
                ∙ append_assoc (unread p) before (marked ∷ take_received behind),
          )
    | inr near ↦
        rw (shown, tested, near)
          (written-IsValid, written_lem, not_read ∙ sym (append-nil (unread p)))
  ]
    where
      set : (ts == 0) ≡ false
      set = ground (arith, given)

      away : index_difference p.size found_at p.head1 ≡ k
      away = ground (arith, v.head0_in, v.head1_in, count, mod-wrap p.size (p.head1 + k))

      tested : ltb 5 (index_difference p.size found_at p.head1) ≡ ltb 5 k
      tested = ap (ltb 5) away

      shown : ltb 5 (length before) ≡ ltb 5 k
      shown = ap (ltb 5) (length-window p.entries p.size p.head1 k)
