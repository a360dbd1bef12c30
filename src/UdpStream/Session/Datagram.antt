-- ===== src/UdpStream/Session/Datagram.antt =====
-- Datagrams by their bytes: the number that a header holds, and which packet of a stream one carries.
use adaptive_transport.Common.{
  ℕ, ◌+◌, ◌%◌, ◌^◌, ◌≤◌, ◌≡◌, refl, sym, ap, ◌∙◌, ◌⊎◌, inl, inr, some, List, [], ◌∷◌, ◌++◌, map,
  append_assoc, length, arith,
}
use adaptive_transport.Common.Bytes.{All, load_le, load_le-take}
use adaptive_transport.Packet.{Packet, seq, wire}
use adaptive_transport.Packet.Header.{seq-mod}
use adaptive_transport.UdpStream.Numbered.{nth, nth-append, nth-append_later}

abbrev pub OneOf : {X : Type 0} → X → List X → Type 0
OneOf w [] = ⊥
OneOf w (x ∷ xs) = (w ≡ x) ⊎ OneOf w xs

module _ {X : Type 0} where
  pub OneOf-append : (w : X) (xs ys : List X) → OneOf w xs ⊎ OneOf w ys → OneOf w (xs ++ ys)
  OneOf-append w [] ys (inl one) = absurd one
  OneOf-append w [] ys (inr one) = one
  OneOf-append w (x ∷ xs) ys (inl (inl same)) = inl same
  OneOf-append w (x ∷ xs) ys (inl (inr one)) = inr (OneOf-append w xs ys (inl one))
  OneOf-append w (x ∷ xs) ys (inr one) = inr (OneOf-append w xs ys (inr one))

  pub append-OneOf : (w : X) (xs ys : List X) → OneOf w (xs ++ ys) → OneOf w xs ⊎ OneOf w ys
  append-OneOf w [] ys one = inr one
  append-OneOf w (x ∷ xs) ys (inl same) = inl (inl same)
  append-OneOf w (x ∷ xs) ys (inr one) = elim (append-OneOf w xs ys one) [
    | inl first ↦ inl (inr first)
    | inr second ↦ inr second
  ]

  pub All-OneOf : (P : X → Type 0) (w : X) (xs : List X) → All P xs → OneOf w xs → P w
  All-OneOf P w [] all one = absurd one
  All-OneOf P w (x ∷ xs) all (inl same) = rw same all.0
  All-OneOf P w (x ∷ xs) all (inr one) = All-OneOf P w xs all.1 one

  pub All-append : (P : X → Type 0) (xs ys : List X) → All P xs → All P ys → All P (xs ++ ys)
  All-append P [] ys a b = b
  All-append P (x ∷ xs) ys a b = (a.0, All-append P xs ys a.1 b)

  pub append-All : (P : X → Type 0) (xs ys : List X) → All P (xs ++ ys) → All P xs × All P ys
  append-All P [] ys a = (tt, a)
  append-All P (x ∷ xs) ys a =
      let (first, second) = append-All P xs ys a.1 in ((a.0, first), second)

  pub All-map : (P Q : X → Type 0) (f : (x : X) → P x → Q x) (xs : List X) → All P xs → All Q xs
  All-map P Q f [] a = tt
  All-map P Q f (x ∷ xs) a = (f x a.0, All-map P Q f xs a.1)

-- The number in the header of a datagram.
abbrev pub number_of : List ℕ → ℕ
number_of w = load_le 4 w % 2 ^ 31

pub seq-wire : (p : Packet) → 4 ≤ p.size → seq p ≡ number_of (wire p)
unfolding wire
seq-wire p whole = seq-mod p ∙ ap (λ (t : ℕ). t % 2 ^ 31) (sym (load_le-take 4 p.size p.buf whole))

-- The datagram carries one of the packets.
abbrev pub Carries : List Packet → List ℕ → Type 0
Carries ps w = (i : ℕ) × (p : Packet) × (nth i ps ≡ some p) × (w ≡ wire p)

pub Carries-append : (ps qs : List Packet) (w : List ℕ) → Carries ps w → Carries (ps ++ qs) w
Carries-append ps qs w (i, p, place, same) = (i, p, nth-append i ps qs {p = p} place, same)

-- Each packet is carried by its own bytes.
pub All-Carries : (ps qs : List Packet) → All (Carries (ps ++ qs)) (map wire qs)
All-Carries ps [] = tt
All-Carries ps (q ∷ qs) = (
  (
    length ps,
    q,
    ap (λ (k : ℕ). nth k (ps ++ q ∷ qs)) (let e : length ps ≡ length ps + 0 = omega arith in e)
        ∙ nth-append_later 0 ps (q ∷ qs),
    refl,
  ),
  rw (append_assoc ps (q ∷ []) qs) at (All-Carries (ps ++ q ∷ []) qs),
)
