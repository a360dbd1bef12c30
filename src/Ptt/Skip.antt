-- ===== src/Ptt/Skip.antt =====
-- The loops that move `head1` over received entries.
use adaptive_transport.Common.{
  ℕ, zero, suc, ◌+◌, ◌≤◌, ◌≡◌, ◌≢◌, refl, sym, ap, ◌∙◌, true, false, inl, inr, Bool-cases, [], ◌∷◌,
  ◌++◌, append-nil, append_assoc, ◌==◌, arith,
}
use adaptive_transport.Common.Window.{window, window-add, gap, add-gap-mod}
use adaptive_transport.Ptt.{Ptt, step, skip_received}
use adaptive_transport.Ptt.View.{
  IsValid, in_flight, unread, drop_received, take_received, first, window-step,
}

-- The first entry in flight, and `head1` moved past it.
abbrev pub past : Ptt → Ptt
past p = record p { head1 = step p.size p.head1 }

pub past-IsValid : {p : Ptt} → IsValid p → p.head1 ≢ p.head0 → IsValid (past p)
past-IsValid {p} v some_left = record {
  head0_in = v.head0_in;
  head1_in = ground (arith, v.head1_in);
  tail_in = v.tail_in;
  order = ground (arith, v.head0_in, v.head1_in, v.tail_in, v.order, some_left);
}

pub past_lem :
    {p : Ptt}
    → IsValid p
    → p.head1 ≢ p.head0
    → (in_flight p ≡ p.entries p.head1 ∷ in_flight (past p))
      × (unread (past p) ≡ unread p ++ p.entries p.head1 ∷ [])
unfolding in_flight unread
past_lem {p} v some_left = (
  ap (window p.entries p.size p.head1) (
        let t : gap p.size p.head0 p.head1 ≡ suc (gap p.size p.head0 (step p.size p.head1)) =
          ground (arith, v.head0_in, v.head1_in, some_left) in
        t)
      ∙ window-step p.entries p.size p.head1 (gap p.size p.head0 (step p.size p.head1)) v.head1_in,
  ap (window p.entries p.size p.tail) (
        let t : gap p.size (step p.size p.head1) p.tail ≡ gap p.size p.head1 p.tail + 1 =
          ground (arith, v.head0_in, v.head1_in, v.tail_in, v.order, some_left) in
        t)
      ∙ window-add p.entries p.size p.tail (gap p.size p.head1 p.tail) 1
      ∙ ap (λ j. window p.entries p.size p.tail (gap p.size p.head1 p.tail) ++ p.entries j ∷ [])
          (add-gap-mod p.size p.head1 p.tail v.head1_in v.tail_in),
)

-- What moving `head1` over the received entries comes to.
pub record Skipped (p p' : Ptt) : Type 0 where
  pub valid : IsValid p'
  pub flies : in_flight p' ≡ drop_received (in_flight p)
  pub reads : unread p' ≡ unread p ++ take_received (in_flight p)

Skipped-same :
    {p : Ptt}
    → IsValid p
    → drop_received (in_flight p) ≡ in_flight p
    → take_received (in_flight p) ≡ []
    → Skipped p p
Skipped-same {p} v dropped none_taken = record {
  valid = v;
  flies = sym dropped;
  reads = sym (ap (◌++◌ (unread p)) none_taken ∙ append-nil (unread p));
}

Skipped-empty : {p : Ptt} → IsValid p → gap p.size p.head0 p.head1 ≡ 0 → Skipped p p
unfolding in_flight drop_received take_received
Skipped-empty {p} v e =
    let none_fly : in_flight p ≡ [] = ap (window p.entries p.size p.head1) e in
    Skipped-same v (ap drop_received none_fly ∙ sym none_fly) (ap take_received none_fly)

Skipped-waits :
    {p : Ptt}
    → IsValid p
    → p.head1 ≢ p.head0
    → (p.entries p.head1).ts_recv == 0 ≡ true
    → Skipped p p
unfolding drop_received take_received
Skipped-waits {p} v some_left waits =
    let (first, _) = past_lem v some_left in
    Skipped-same v (ap drop_received first ∙ rw waits refl ∙ sym first)
      (ap take_received first ∙ rw waits refl)

Skipped-past :
    {p p' : Ptt}
    → IsValid p
    → p.head1 ≢ p.head0
    → (p.entries p.head1).ts_recv == 0 ≡ false
    → Skipped (past p) p'
    → Skipped p p'
unfolding drop_received take_received
Skipped-past {p} v some_left came rest =
    let (first, read) = past_lem v some_left in
    record {
      valid = rest.valid;
      flies = rest.flies ∙ sym (ap drop_received first ∙ rw came refl);
      reads =
          rest.reads
          ∙ ap (λ xs. xs ++ take_received (in_flight (past p))) read
          ∙ append_assoc (unread p) (p.entries p.head1 ∷ []) (take_received (in_flight (past p)))
          ∙ ap (◌++◌ (unread p)) (sym (ap take_received first ∙ rw came refl));
    }

skip-Skipped :
    (fuel n : ℕ) (p : Ptt)
    → IsValid p
    → gap p.size p.head0 p.head1 ≡ n
    → n ≤ fuel
    → Skipped p (skip_received fuel p)
unfolding skip_received
skip-Skipped zero n p v e le = Skipped-empty v (omega (arith, e))
skip-Skipped (suc fuel) zero p v e le =
    let stop : (p.head1 == p.head0) ≡ true = ground (arith, v.head0_in, v.head1_in, e) in
    rw stop (Skipped-empty v e)
skip-Skipped (suc fuel) (suc n) p v e le = elim (Bool-cases ((p.entries p.head1).ts_recv == 0)) [
  | inl waits ↦ rw (goes_on, waits) (Skipped-waits v some_left waits)
  | inr came ↦
      rw (goes_on, came)
        (Skipped-past v some_left came (
          skip-Skipped fuel n (past p) (past-IsValid v some_left)
            (ground (arith, v.head0_in, v.head1_in, e)) (omega arith)))
]
  where
    some_left : p.head1 ≢ p.head0
    some_left same = ground (arith, e, same)

    goes_on : (p.head1 == p.head0) ≡ false
    goes_on = ground (arith, some_left)

-- For a ring in order, the loop that moves `head1` ends within `size` rounds: the entries received at
-- the front of those in flight can then be read, behind those that could be before, and in flight are
-- the entries from the first one without a receive time on.
pub skip_received_lem : {p : Ptt} → IsValid p → Skipped p (skip_received p.size p)
skip_received_lem {p} v =
    skip-Skipped p.size (gap p.size p.head0 p.head1) p v refl
      (ground (arith, v.head0_in, v.head1_in))
