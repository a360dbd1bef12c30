-- ===== src/Common/Bytes.antt =====
-- Little-endian loads and stores of `n`-byte words at the start of a byte list.
use Prim.Native.Nat.{ℕ, zero, suc, ◌+◌, ◌*◌, ◌/◌, ◌%◌, ◌^◌, ◌≤◌, ◌<◌}
use mathlib.Core.Path.{◌≡◌, refl, ap}
use mathlib.Core.List.{List, [], ◌∷◌}
use native.Mathlib.Nat.{pow-suc}
use native.Mathlib.Omega.{arith}
use adaptive_transport.Common.Lists.{length, take, drop, replicate}

abbrev pub All {ℓ κ} : {A : Type ℓ} → (A → Type κ) → List A → Type κ
All P [] = Unit
All P (x ∷ xs) = P x × All P xs

abbrev pub IsBytes : List ℕ → Type 0
IsBytes = All (λ b. b < 256)

abbrev pub load_le : ℕ → List ℕ → ℕ
load_le zero bs = 0
load_le (suc n) [] = 0
load_le (suc n) (b ∷ bs) = b + 256 * load_le n bs

abbrev pub store_le : ℕ → ℕ → List ℕ → List ℕ
store_le zero v bs = bs
store_le (suc n) v [] = []
store_le (suc n) v (b ∷ bs) = (v % 256) ∷ store_le n (v / 256) bs

pub load_le-store_le :
    (n v : ℕ) (bs : List ℕ) → n ≤ length bs → v < 256 ^ n → load_le n (store_le n v bs) ≡ v
load_le-store_le zero v bs h lt = omega arith
load_le-store_le (suc n) v [] h lt = absurd (omega arith)
load_le-store_le (suc n) v (b ∷ bs) h lt =
    omega (arith, load_le-store_le n (v / 256) bs (omega arith) (omega (arith, pow-suc 256 n)))

pub load_le-lt : (n : ℕ) (bs : List ℕ) → IsBytes bs → load_le n bs < 256 ^ n
load_le-lt zero bs h = omega arith
load_le-lt (suc n) [] h = omega (arith, pow-suc 256 n, load_le-lt n [] tt)
load_le-lt (suc n) (b ∷ bs) h = omega (arith, pow-suc 256 n, load_le-lt n bs h.1)

pub length-store_le : (n v : ℕ) (bs : List ℕ) → length (store_le n v bs) ≡ length bs
length-store_le zero v bs = refl
length-store_le (suc n) v [] = refl
length-store_le (suc n) v (b ∷ bs) = ap suc (length-store_le n (v / 256) bs)

pub store_le-IsBytes : (n v : ℕ) (bs : List ℕ) → IsBytes bs → IsBytes (store_le n v bs)
store_le-IsBytes zero v bs h = h
store_le-IsBytes (suc n) v [] h = tt
store_le-IsBytes (suc n) v (b ∷ bs) h = (omega arith, store_le-IsBytes n (v / 256) bs h.1)

-- A store leaves what lies behind the word.
pub drop-store_le : (n v : ℕ) (bs : List ℕ) → drop n (store_le n v bs) ≡ drop n bs
drop-store_le zero v bs = refl
drop-store_le (suc n) v [] = refl
drop-store_le (suc n) v (b ∷ bs) = drop-store_le n (v / 256) bs

-- A load reads its own bytes only.
pub load_le-take : (n k : ℕ) (bs : List ℕ) → n ≤ k → load_le n (take k bs) ≡ load_le n bs
load_le-take zero k bs h = refl
load_le-take (suc n) zero bs h = absurd (omega arith)
load_le-take (suc n) (suc k) [] h = refl
load_le-take (suc n) (suc k) (b ∷ bs) h =
    ap (λ (t : ℕ). b + 256 * t) (load_le-take n k bs (omega arith))

pub take-IsBytes : (n : ℕ) (xs : List ℕ) → IsBytes xs → IsBytes (take n xs)
take-IsBytes zero xs h = tt
take-IsBytes (suc n) [] h = tt
take-IsBytes (suc n) (x ∷ xs) h = (h.0, take-IsBytes n xs h.1)

pub drop-IsBytes : (n : ℕ) (xs : List ℕ) → IsBytes xs → IsBytes (drop n xs)
drop-IsBytes zero xs h = h
drop-IsBytes (suc n) [] h = tt
drop-IsBytes (suc n) (x ∷ xs) h = drop-IsBytes n xs h.1

pub replicate-IsBytes : (n a : ℕ) → a < 256 → IsBytes (replicate n a)
replicate-IsBytes zero a h = tt
replicate-IsBytes (suc n) a h = (h, replicate-IsBytes n a h)
