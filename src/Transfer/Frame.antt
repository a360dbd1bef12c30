-- ===== src/Transfer/Frame.antt =====
-- What recv_data writes of the blocks that are sent to it.
use adaptive_transport.Common.{
  ℕ, ◌+◌, ◌-◌, ◌*◌, ◌/◌, ◌^◌, ◌≤◌, ◌<◌, ◌≡◌, refl, sym, ap, ap₂, ◌∙◌, bit_and, Bool, true, false,
  not, List, [], ◌∷◌, ◌++◌, append-nil, append_assoc, ◌==◌, ltb, if◌then◌else◌, length, take, drop,
  replicate, arith,
}
use adaptive_transport.Common.Bits.{bit_and-mask, bit_or-fields}
use adaptive_transport.Common.Bytes.{All, load_le, store_le, load_le-store_le}
use adaptive_transport.Transfer.{header, Stage, at_header, in_block, finished, stage_of, recv_data}

abbrev pub flat : List (List ℕ) → List ℕ
flat [] = []
flat (m ∷ ms) = m ++ flat ms

abbrev pub is_last : List (List ℕ) → Bool
is_last [] = true
is_last (b ∷ bs) = false

-- What the loops of recv_data see: a header is looked at when nothing of it has arrived or all, and the wait for
-- each block ends.
pub data Watches : List ℕ → Stage → List (List ℕ) → Type 0 where
  done : {looks : List ℕ} → Watches looks at_header []
  idle :
      {looks : List ℕ} {bs : List (List ℕ)}
      → Watches looks at_header bs
      → Watches (0 ∷ looks) at_header bs
  arrived :
      {looks : List ℕ} {b : List ℕ} {bs : List (List ℕ)} (n : ℕ)
      → 4 ≤ n
      → Watches looks (in_block (length b) (is_last bs)) (b ∷ bs)
      → Watches (n ∷ looks) at_header (b ∷ bs)
  short :
      {looks : List ℕ} {b : List ℕ} {bs : List (List ℕ)} (n : ℕ)
      → n < length b
      → Watches looks (in_block (length b) (is_last bs)) (b ∷ bs)
      → Watches (n ∷ looks) (in_block (length b) (is_last bs)) (b ∷ bs)
  filled :
      {looks : List ℕ} {b : List ℕ} {bs : List (List ℕ)} (n : ℕ)
      → length b ≤ n
      → Watches looks at_header bs
      → Watches (n ∷ looks) (in_block (length b) (is_last bs)) (b ∷ bs)

-- A block as it is sent.
abbrev pub frame : Bool → List ℕ → List ℕ
frame eof b = store_le 4 (header eof (length b)) (replicate 4 0) ++ b

abbrev pub encode : List (List ℕ) → List ℕ
encode [] = []
encode (b ∷ bs) = frame (is_last bs) b ++ encode bs

abbrev pub rest_of : Stage → List (List ℕ) → List ℕ
rest_of at_header bs = encode bs
rest_of (in_block size eof) [] = []
rest_of (in_block size eof) (b ∷ bs) = b ++ encode bs

header-eq : (eof : Bool) (n : ℕ) → n < 2 ^ 31 → header eof n ≡ n + (if eof then 1 else 0) * 2 ^ 31
unfolding header
header-eq eof n small = bit_or-fields 31 (if eof then 1 else 0) n small

stage_of-eq :
    (eof : Bool) (n : ℕ)
    → n < 2 ^ 31
    → stage_of (n + (if eof then 1 else 0) * 2 ^ 31) ≡ in_block n eof
stage_of-eq true n small =
    let size : bit_and (n + 1 * 2 ^ 31) (2 ^ 31 - 1) ≡ n =
      omega (arith, bit_and-mask 31 (n + 1 * 2 ^ 31)) in
    let flag : ((n + 1 * 2 ^ 31) / 2 ^ 31 == 0) ≡ false = ground arith in
    ap₂ (λ (k : ℕ) (e : Bool). in_block k (not e)) size flag
stage_of-eq false n small =
    let size : bit_and (n + 0 * 2 ^ 31) (2 ^ 31 - 1) ≡ n =
      omega (arith, bit_and-mask 31 (n + 0 * 2 ^ 31)) in
    let flag : ((n + 0 * 2 ^ 31) / 2 ^ 31 == 0) ≡ true = ground arith in
    ap₂ (λ (k : ℕ) (e : Bool). in_block k (not e)) size flag

bit_le : (b : Bool) → (if b then 1 else 0) ≤ 1
bit_le true = omega arith
bit_le false = omega arith

word_of : (v : ℕ) → v < 2 ^ 32 → load_le 4 (store_le 4 v (replicate 4 0)) ≡ v
word_of v h = load_le-store_le 4 v (replicate 4 0) (omega arith) (omega arith)

-- The header is read back as it was written.
stage_of-frame :
    (eof : Bool) (b rest : List ℕ)
    → length b < 2 ^ 31
    → stage_of (load_le 4 (frame eof b ++ rest)) ≡ in_block (length b) eof
stage_of-frame eof b rest small =
    let value = header-eq eof (length b) small in
    let word : load_le 4 (frame eof b ++ rest) ≡ length b + (if eof then 1 else 0) * 2 ^ 31 =
      word_of (header eof (length b)) (omega (arith, value, bit_le eof)) ∙ value in
    ap stage_of word ∙ stage_of-eq eof (length b) small

look_header :
    (n : ℕ) (looks bytes out : List ℕ)
    → 4 ≤ n
    → recv_data (n ∷ looks) at_header bytes out
      ≡ recv_data looks (stage_of (load_le 4 bytes)) (drop 4 bytes) out
unfolding recv_data
look_header n looks bytes out h =
    let first : (n == 0) ≡ false = ground arith in
    let second : ltb n 4 ≡ false = ground arith in rw (first, second) refl

take-prefix : (b rest : List ℕ) → take (length b) (b ++ rest) ≡ b
take-prefix [] rest = take_nil rest
  where
    take_nil : (r : List ℕ) → take 0 r ≡ []
    take_nil r = refl
take-prefix (x ∷ b) rest = ap (◌∷◌ x) (take-prefix b rest)

drop-prefix : (b rest : List ℕ) → drop (length b) (b ++ rest) ≡ rest
drop-prefix [] rest = refl
drop-prefix (x ∷ b) rest = drop-prefix b rest

look_block :
    (n : ℕ) (looks b rest out : List ℕ) (eof : Bool)
    → length b ≤ n
    → recv_data (n ∷ looks) (in_block (length b) eof) (b ++ rest) out
      ≡ (if eof then finished (out ++ b) else recv_data looks at_header rest (out ++ b))
unfolding recv_data
look_block n looks b rest out eof h =
    let first : ltb n (length b) ≡ false = ground arith in
    rw (first, take-prefix b rest, drop-prefix b rest) refl

pub recv_data_lem :
    {looks : List ℕ} {stage : Stage} {bs : List (List ℕ)} (out : List ℕ)
    → Watches looks stage bs
    → 0 < length bs
    → All (λ (b : List ℕ). length b < 2 ^ 31) bs
    → recv_data looks stage (rest_of stage bs) out ≡ finished (out ++ flat bs)
unfolding recv_data
recv_data_lem out done some_left small = absurd (omega arith)
recv_data_lem out (idle h) some_left small = recv_data_lem out h some_left small
recv_data_lem out (arrived {looks} {b} {bs} n whole h) some_left small =
    look_header n looks (encode (b ∷ bs)) out whole
    ∙ ap (λ (st : Stage). recv_data looks st (b ++ encode bs) out)
        (stage_of-frame (is_last bs) b (encode bs) small.0)
    ∙ recv_data_lem out h some_left small
recv_data_lem out (short {b = b} n few h) some_left small =
    let first : ltb n (length b) ≡ true = ground arith in
    rw first (recv_data_lem out h some_left small)
recv_data_lem out (filled {looks} {b} {bs = []} n enough h) some_left small =
    look_block n looks b [] out true enough
    ∙ ap (λ (l : List ℕ). finished (out ++ l)) (sym (append-nil b))
recv_data_lem out (filled {looks} {b} {bs = c ∷ cs} n enough h) some_left small =
    look_block n looks b (encode (c ∷ cs)) out false enough
    ∙ recv_data_lem (out ++ b) h (omega arith) small.1
    ∙ ap finished (append_assoc out b (flat (c ∷ cs)))
