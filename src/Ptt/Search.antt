-- ===== src/Ptt/Search.antt =====
-- The search of `setRecv` through the packets in flight.
use native.Mathlib.Nat.{mod-add-mod}
use adaptive_transport.Common.{
  ℕ, zero, suc, ◌+◌, ◌%◌, ◌<◌, ◌≡◌, ◌≢◌, refl, ap, ◌∙◌, Bool, true, false, not, ◌&&◌, none, some,
  inl, inr, Bool-cases, List, [], ◌∷◌, ◌++◌, ◌==◌, length, arith,
}
use adaptive_transport.Common.Window.{window, length-window, gap, mod-wrap}
use adaptive_transport.Ptt.{Ptt, Entry, step, search, set_recv}
use adaptive_transport.Ptt.View.{IsValid, in_flight, window-step}

-- No entry of the list has number `s`.
unfoldable pub lacks : ℕ → List Entry → Bool
lacks s [] = true
lacks s (x ∷ xs) = not (x.seq == s) && lacks s xs

-- The index `k` places on from `ii`.
abbrev pub place : Ptt → ℕ → ℕ → ℕ
place p ii k = (ii + k) % p.size

pub place-step :
    {p : Ptt} {ii : ℕ}
    → IsValid p
    → ii < p.size
    → (k : ℕ) → place p (step p.size ii) k ≡ place p ii (suc k)
place-step {p} {ii} v low k =
    let t : step p.size ii ≡ suc ii % p.size = ground (arith, mod-wrap p.size (suc ii), low) in
    let u : suc ii + k ≡ ii + suc k = omega arith in
    ap (λ j. (j + k) % p.size) t ∙ mod-add-mod (suc ii) p.size k ∙ ap (λ j. j % p.size) u

pub lacks-cons :
    (s : ℕ) (x : Entry) (xs : List Entry)
    → lacks s (x ∷ xs) ≡ true
    → (x.seq == s ≡ false) × (lacks s xs ≡ true)
unfolding lacks
lacks-cons s x xs h = elim (Bool-cases (x.seq == s)) [
  | inl same ↦ absurd (ground (arith, h, same))
  | inr other ↦ (other, ground (arith, h, other))
]

-- The list from index `ii` up to `head0` that has a first entry.
pub head_lem :
    {p : Ptt} {ii : ℕ} {x : Entry} {xs : List Entry}
    → IsValid p
    → ii < p.size
    → window p.entries p.size ii (gap p.size p.head0 ii) ≡ x ∷ xs
    → (ii ≢ p.head0)
      × (p.entries ii ≡ x)
      × (window p.entries p.size (step p.size ii) (gap p.size p.head0 (step p.size ii)) ≡ xs)
head_lem {p} {ii} {x} {xs} v low e = (some_left, cc (e, split), cc (e, split))
  where
    some_left : ii ≢ p.head0
    some_left here =
        let t : gap p.size p.head0 ii ≡ 0 = ground (arith, here) in
        let none_fly : window p.entries p.size ii (gap p.size p.head0 ii) ≡ [] =
          ap (window p.entries p.size ii) t in
        absurd (cc (e, none_fly))

    split :
        window p.entries p.size ii (gap p.size p.head0 ii)
        ≡ p.entries ii
          ∷ window p.entries p.size (step p.size ii) (gap p.size p.head0 (step p.size ii))
    split =
        let t : gap p.size p.head0 ii ≡ suc (gap p.size p.head0 (step p.size ii)) =
          ground (arith, v.head0_in, low, some_left) in
        ap (window p.entries p.size ii) t
        ∙ window-step p.entries p.size ii (gap p.size p.head0 (step p.size ii)) low

-- With enough fuel the search stops at the first entry with the number.
pub search_lem :
    (fuel s ii : ℕ) (before : List Entry) (y : Entry) (post : List Entry) {p : Ptt}
    → IsValid p
    → ii < p.size
    → window p.entries p.size ii (gap p.size p.head0 ii) ≡ before ++ y ∷ post
    → lacks s before ≡ true
    → y.seq ≡ s
    → length before < fuel
    → search fuel p s ii ≡ some (place p ii (length before))
unfolding search lacks
search_lem zero s ii before y post v low e none_there number le = absurd (omega arith)
search_lem (suc fuel) s ii [] y post {p} v low e none_there number le =
    let (some_left, same, rest) = head_lem v low e in
    let goes_on : (ii == p.head0) ≡ false = ground (arith, some_left) in
    let found : ((p.entries ii).seq == s) ≡ true =
      (let t : (p.entries ii).seq ≡ s = ap (λ (z : Entry). z.seq) same ∙ number in
        ground (arith, t)) in
    rw (goes_on, found) (ap some (ground (arith, mod-wrap p.size (ii + 0), low)))
search_lem (suc fuel) s ii (b ∷ bs) y post {p} v low e none_there number le =
    let (some_left, same, rest) = head_lem v low e in
    let goes_on : (ii == p.head0) ≡ false = ground (arith, some_left) in
    let (other, none_behind) = lacks-cons s b bs none_there in
    let passed : ((p.entries ii).seq == s) ≡ false = ap (λ (z : Entry). z.seq == s) same ∙ other in
    rw (goes_on, passed)
      (search_lem fuel s (step p.size ii) bs y post v (ground (arith, low)) rest none_behind number
          (omega (arith, le))
        ∙ ap some (place-step v low (length bs)))

-- Where no entry has the number, the search comes to the end.
search-none :
    (fuel s ii : ℕ) (xs : List Entry) {p : Ptt}
    → IsValid p
    → ii < p.size
    → window p.entries p.size ii (gap p.size p.head0 ii) ≡ xs
    → lacks s xs ≡ true
    → search fuel p s ii ≡ none
unfolding search
search-none zero s ii xs v low e none_there = refl
search-none (suc fuel) s ii [] {p} v low e none_there =
    let here : (ii == p.head0) ≡ true = ground (
      arith,
      v.head0_in,
      low,
      length-window p.entries p.size ii (gap p.size p.head0 ii),
      ap length e,
    ) in
    rw here refl
search-none (suc fuel) s ii (b ∷ bs) {p} v low e none_there =
    let (some_left, same, rest) = head_lem v low e in
    let goes_on : (ii == p.head0) ≡ false = ground (arith, some_left) in
    let (other, none_behind) = lacks-cons s b bs none_there in
    let passed : ((p.entries ii).seq == s) ≡ false = ap (λ (z : Entry). z.seq == s) same ∙ other in
    rw (goes_on, passed)
      (search-none fuel s (step p.size ii) bs v (ground (arith, low)) rest none_behind)

-- For a number that no packet in flight has, where there are packets in flight, `setRecv` reports
-- failure and leaves the ring.
set_recv-unknown :
    (now s ts : ℕ) (b : Entry) (bs : List Entry) {p : Ptt}
    → IsValid p
    → in_flight p ≡ b ∷ bs
    → lacks s (b ∷ bs) ≡ true
    → set_recv now s ts p ≡ (false, p)
unfolding set_recv in_flight
set_recv-unknown now s ts b bs {p} v e none_there =
    let (some_left, same, rest) = head_lem v v.head1_in e in
    let (other, none_behind) = lacks-cons s b bs none_there in
    let slow : ((p.entries p.head1).seq == s) ≡ false =
      ap (λ (z : Entry). z.seq == s) same ∙ other in
    let missed : search p.size p s (step p.size p.head1) ≡ none =
      search-none p.size s (step p.size p.head1) bs v (ground (arith, v.head1_in)) rest
        none_behind in
    rw (slow, missed) refl
