-- ===== src/Ptt/View.antt =====
-- The ring as two lists: the entries of packets in flight and those that can be read.
use native.Mathlib.Nat.{mod-eq_of_lt}
use adaptive_transport.Common.{
  ℕ, suc, ◌+◌, ◌%◌, ◌<◌, ◌≡◌, sym, ap, ap₂, ◌∙◌, Option, none, some, List, [], ◌∷◌, ◌==◌,
  if◌then◌else◌, arith,
}
use adaptive_transport.Common.Window.{window, window-mod, gap, mod-wrap}
use adaptive_transport.Ptt.{Ptt, Entry, step}

pub record IsValid (p : Ptt) : Type 0 where
  pub head0_in : p.head0 < p.size
  pub head1_in : p.head1 < p.size
  pub tail_in : p.tail < p.size
  pub order : gap p.size p.head0 p.head1 + gap p.size p.head1 p.tail < p.size

unfoldable pub in_flight : Ptt → List Entry
in_flight p = window p.entries p.size p.head1 (gap p.size p.head0 p.head1)

unfoldable pub unread : Ptt → List Entry
unread p = window p.entries p.size p.tail (gap p.size p.head1 p.tail)

-- The entries from the first one without a receive time on, and those before it.
unfoldable pub drop_received : List Entry → List Entry
drop_received [] = []
drop_received (x ∷ xs) = if x.ts_recv == 0 then x ∷ xs else drop_received xs

unfoldable pub take_received : List Entry → List Entry
take_received [] = []
take_received (x ∷ xs) = if x.ts_recv == 0 then [] else x ∷ take_received xs

unfoldable pub first : List Entry → Option Entry
first [] = none
first (x ∷ xs) = some x

pub window-step :
    (f : ℕ → Entry) (size i n : ℕ)
    → i < size
    → window f size i (suc n) ≡ f i ∷ window f size (step size i) n
window-step f size i n h =
    let next : step size i ≡ suc i % size = ground (arith, mod-wrap size (suc i)) in
    ap₂ ◌∷◌ (ap f (mod-eq_of_lt h))
      (sym (ap (λ j. window f size j n) next ∙ window-mod f size (suc i) n))
