-- ===== src/UdpStream/Held.antt =====
-- `m_recvMap`, the `std::unordered_map` of payloads that came too early, as an association list.
use adaptive_transport.Common.{
  ℕ, ◌+◌, ◌≤◌, ◌<◌, ◌≡◌, refl, List, [], ◌∷◌, Option, none, some, ◌==◌, if◌then◌else◌, length,
  arith,
}

abbrev pub Held : Type 0
Held = List (ℕ × List ℕ)

unfoldable pub lookup : ℕ → Held → Option (List ℕ)
lookup k [] = none
lookup k ((j, v) ∷ m) = if j == k then some v else lookup k m

unfoldable pub erase : ℕ → Held → Held
erase k [] = []
erase k ((j, v) ∷ m) = if j == k then erase k m else (j, v) ∷ erase k m

-- `m_recvMap[k] = v`.
unfoldable pub insert : ℕ → List ℕ → Held → Held
insert k v m = (k, v) ∷ erase k m

pub lookup-erase :
    (k j : ℕ) (m : Held) → lookup j (erase k m) ≡ (if k == j then none else lookup j m)
unfolding lookup erase
lookup-erase k j [] = ground arith
lookup-erase k j ((i, v) ∷ m) = ground (arith, lookup-erase k j m)

pub lookup-insert :
    (k j : ℕ) (v : List ℕ) (m : Held)
    → lookup j (insert k v m) ≡ (if k == j then some v else lookup j m)
unfolding lookup insert
lookup-insert k j v m = ground (arith, lookup-erase k j m)

-- Bytes held in all.
unfoldable pub held_bytes : Held → ℕ
held_bytes [] = 0
held_bytes ((j, v) ∷ m) = length v + held_bytes m

pub held_bytes-erase-le : (k : ℕ) (m : Held) → held_bytes (erase k m) ≤ held_bytes m
unfolding held_bytes erase
held_bytes-erase-le k [] = omega arith
held_bytes-erase-le k ((j, v) ∷ m) = ground (arith, held_bytes-erase-le k m)

pub held_bytes-erase :
    (k : ℕ) (m : Held) {v : List ℕ}
    → lookup k m ≡ some v
    → held_bytes (erase k m) + length v ≤ held_bytes m
unfolding held_bytes erase lookup
held_bytes-erase k [] e = absurd (ground arith)
held_bytes-erase k ((j, w) ∷ m) {v} e =
    ground (arith, held_bytes-erase-le k m, held_bytes-erase k m {v = v})

pub held_bytes-insert :
    (k : ℕ) (v : List ℕ) (m : Held) → held_bytes (insert k v m) ≤ length v + held_bytes m
unfolding held_bytes insert
held_bytes-insert k v m = omega (arith, held_bytes-erase-le k m)

length-erase-le : (k : ℕ) (m : Held) → length (erase k m) ≤ length m
unfolding erase
length-erase-le k [] = omega arith
length-erase-le k ((j, v) ∷ m) = ground (arith, length-erase-le k m)

pub length-erase-lt :
    (k : ℕ) (m : Held) {v : List ℕ} → lookup k m ≡ some v → length (erase k m) < length m
unfolding erase lookup
length-erase-lt k [] e = absurd (ground arith)
length-erase-lt k ((j, w) ∷ m) {v} e =
    ground (arith, length-erase-le k m, length-erase-lt k m {v = v})

pub lookup-nil : (k : ℕ) (m : Held) → length m ≤ 0 → lookup k m ≡ none
unfolding lookup
lookup-nil k [] h = refl
lookup-nil k (x ∷ m) h = absurd (omega arith)
