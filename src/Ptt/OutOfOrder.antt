-- ===== src/Ptt/OutOfOrder.antt =====
-- `setRecv` for a packet behind the oldest one in flight, the path that the code calls slow.
use adaptive_transport.Common.{
  ℕ, suc, ◌+◌, ◌<◌, ◌≡◌, ◌≢◌, refl, sym, ap, ap₂, ◌∙◌, true, false, some, List, [], ◌∷◌, ◌++◌, ◌==◌,
  ltb, if◌then◌else◌, length, length-append, arith,
}
use adaptive_transport.Common.Window.{window, window-add, length-window, gap}
use adaptive_transport.Ptt.{Ptt, Entry, step, search, on_found, set_recv}
use adaptive_transport.Ptt.View.{IsValid, in_flight, unread, drop_received, take_received}
use adaptive_transport.Ptt.Search.{lacks, lacks-cons, place, place-step, head_lem, search_lem}
use adaptive_transport.Ptt.Found.{Stamped, on_found_lem}

append_split {ℓ} :
    {A : Type ℓ} (xs ys : List A) {us vs : List A}
    → length xs ≡ length ys
    → xs ++ us ≡ ys ++ vs
    → (xs ≡ ys) × (us ≡ vs)
append_split [] [] e same = (refl, same)
append_split [] (y ∷ ys) e same = absurd (omega (arith, e))
append_split (x ∷ xs) [] e same = absurd (omega (arith, e))
append_split (x ∷ xs) (y ∷ ys) {us} {vs} e same =
    let tails : xs ++ us ≡ ys ++ vs = cc same in
    let rest : (xs ≡ ys) × (us ≡ vs) = append_split xs ys (omega (arith, e)) tails in
    (ap₂ ◌∷◌ (cc same) rest.0, rest.1)

length-in_flight-lt : {p : Ptt} → IsValid p → length (in_flight p) < p.size
unfolding in_flight
length-in_flight-lt {p} v =
    omega (arith, v.order, length-window p.entries p.size p.head1 (gap p.size p.head0 p.head1))

-- The slow path finds the packet.
set_recv-found :
    (now s ts : ℕ) (b : Entry) (bs : List Entry) (y : Entry) (post : List Entry) {p : Ptt}
    → IsValid p
    → in_flight p ≡ (b ∷ bs) ++ y ∷ post
    → lacks s (b ∷ bs) ≡ true
    → y.seq ≡ s
    → ts ≢ 0
    → set_recv now s ts p ≡ (true, on_found p (place p p.head1 (length (b ∷ bs))) ts)
unfolding set_recv in_flight
set_recv-found now s ts b bs y post {p} v e none_there number given =
    let (some_left, same, rest) = head_lem v v.head1_in e in
    let (other, none_behind) = lacks-cons s b bs none_there in
    let chosen : (if ts == 0 then now else ts) ≡ ts = ground (arith, given) in
    let slow : ((p.entries p.head1).seq == s) ≡ false =
      ap (λ (z : Entry). z.seq == s) same ∙ other in
    let low : length bs < p.size =
      let short : length (in_flight p) < p.size = length-in_flight-lt v in
      omega (arith, short, ap length e, length-append (b ∷ bs) (y ∷ post)) in
    let found : search p.size p s (step p.size p.head1) ≡ some (place p p.head1 (length (b ∷ bs))) =
      search_lem p.size s (step p.size p.head1) bs y post v (ground (arith, v.head1_in)) rest
        none_behind number low
      ∙ ap some (place-step v v.head1_in (length bs)) in
    rw (slow, found, chosen) refl

-- `setRecv` with a receive time, in a ring in order, for a number that a packet in flight behind the
-- oldest one has and no packet in flight before it: it reports success. If more than five packets in
-- flight stand before it, they can be read, received or not, behind the entries that could be before
-- and followed by the packet with that time and the entries behind it up to the first that is not
-- received; those from there on are in flight. Otherwise only that packet's time is set: it stays in
-- flight, and what can be read stays. The ring is in order.
pub set_recv-out_of_order :
    (now s ts : ℕ) (b : Entry) (bs : List Entry) (y : Entry) (post : List Entry) {p : Ptt}
    → IsValid p
    → in_flight p ≡ (b ∷ bs) ++ y ∷ post
    → lacks s (b ∷ bs) ≡ true
    → y.seq ≡ s
    → ts ≢ 0
    → let r = set_recv now s ts p in
      let y' = record y { ts_recv = ts } in
      let far = ltb 5 (length (b ∷ bs)) in
      (r.0 ≡ true)
      × IsValid r.1
      × (in_flight r.1 ≡ (if far then drop_received post else (b ∷ bs) ++ y' ∷ post))
      × (unread r.1 ≡ unread p ++ (if far then (b ∷ bs) ++ y' ∷ take_received post else []))
unfolding in_flight
set_recv-out_of_order now s ts b bs y post {p} v e none_there number given =
    rw (set_recv-found now s ts b bs y post v e none_there number given)
      (refl, done.0, done.1, done.2)
  where
    k : ℕ
    k = length (b ∷ bs)

    count : gap p.size p.head0 p.head1 ≡ k + suc (length post)
    count = omega (
      arith,
      length-window p.entries p.size p.head1 (gap p.size p.head0 p.head1),
      ap length e,
      length-append (b ∷ bs) (y ∷ post),
    )

    parts :
        (window p.entries p.size p.head1 k ≡ b ∷ bs)
        × (window p.entries p.size (p.head1 + k) (suc (length post)) ≡ y ∷ post)
    parts =
        append_split (window p.entries p.size p.head1 k) (b ∷ bs)
          (length-window p.entries p.size p.head1 k)
          (sym (window-add p.entries p.size p.head1 k (suc (length post)))
            ∙ ap (window p.entries p.size p.head1) (sym count)
            ∙ e)

    same :
        (p.entries (place p p.head1 k) ≡ y)
        × (window p.entries p.size (suc (p.head1 + k)) (length post) ≡ post)
    same = (cc (parts.1), cc (parts.1))

    done : Stamped p (on_found p (place p p.head1 k) ts) ts (b ∷ bs) y post
    done =
        coe 0 1
          (i. Stamped p (on_found p (place p p.head1 k) ts) ts (parts.0 i) (same.0 i) (same.1 i))
          (on_found_lem v k (length post) count ts given)
