-- ===== src/FullIo/Reads.antt =====
-- `full_read` ends with the next bytes of the file.
use adaptive_transport.Common.{
  ℕ, zero, suc, ◌+◌, ◌-◌, ◌^◌, ◌≤◌, ◌<◌, ◌≡◌, refl, sym, ap, ap₂, ◌∙◌, min, Bool, false, inl, inr,
  Bool-cases, List, [], ◌∷◌, ◌++◌, append-nil, append_assoc, ◌==◌, ltb, length, length-append, take,
  take_all, arith,
}
use adaptive_transport.Common.Calls.{eintr, ReadCall, read_failed, read_bytes}
use adaptive_transport.FullIo.{returned, Reading, sub_u32, add_u32, read_loop, full_read}

-- The calls' results are those of a file whose bytes from here on are given, where `size` bytes are asked for: some
-- of its next bytes, none at its end only, and no error but an interruption.
pub data Serves : List ReadCall → ℕ → List ℕ → Type 0 where
  served : {calls : List ReadCall} {file : List ℕ} → Serves calls 0 file
  interrupted :
      {calls : List ReadCall} {size : ℕ} {file : List ℕ}
      → Serves calls size file
      → Serves (read_failed eintr ∷ calls) size file
  next_bytes :
      {calls : List ReadCall} {size : ℕ} (bytes rest : List ℕ)
      → 0 < length bytes
      → length bytes ≤ size
      → Serves calls (size - length bytes) rest
      → Serves (read_bytes bytes ∷ calls) size (bytes ++ rest)
  at_end : {calls : List ReadCall} {size : ℕ} → Serves (read_bytes [] ∷ calls) size []

take-append :
    (bytes rest : List ℕ) (size : ℕ)
    → length bytes ≤ size
    → take size (bytes ++ rest) ≡ bytes ++ take (size - length bytes) rest
take-append [] rest size h =
    ap (λ (k : ℕ). take k rest) (let e : size ≡ size - 0 = omega arith in e)
take-append (b ∷ bytes) rest zero h = absurd (omega arith)
take-append (b ∷ bytes) rest (suc size) h = ap (◌∷◌ b) (
    take-append bytes rest size (omega arith)
    ∙ ap (λ (k : ℕ). bytes ++ take k rest)
        (let e : size - length bytes ≡ suc size - suc (length bytes) = omega arith in e))

-- What `full_read` returns of a file.
abbrev pub reading : (size total : ℕ) → (buf file : List ℕ) → Reading
reading size total buf file = record {
  eof = ltb (length file) size;
  total = total + min (length file) size;
  buf = buf ++ take size file;
}

-- A reading by its three fields.
abbrev pub read_so_far : Bool → ℕ → List ℕ → Reading
read_so_far eof total buf = record { eof = eof; total = total; buf = buf }

pub read_so_far-eq :
    {e1 e2 : Bool} {t1 t2 : ℕ} {b1 b2 : List ℕ}
    → e1 ≡ e2
    → t1 ≡ t2
    → b1 ≡ b2
    → read_so_far e1 t1 b1 ≡ read_so_far e2 t2 b2
read_so_far-eq {e2 = e2} {t1} {b1 = b1} e t b =
    ap (λ (x : Bool). read_so_far x t1 b1) e ∙ ap₂ (λ (x : ℕ) (y : List ℕ). read_so_far e2 x y) t b

read_loop-zero :
    (calls : List ReadCall) (total : ℕ) (buf : List ℕ)
    → read_loop calls 0 total buf ≡ returned (read_so_far false total buf)
unfolding read_loop
read_loop-zero [] total buf = refl
read_loop-zero (read_failed e ∷ calls) total buf = refl
read_loop-zero (read_bytes bytes ∷ calls) total buf = refl

reading-nothing :
    (total : ℕ) (buf file : List ℕ) → read_so_far false total buf ≡ reading 0 total buf file
reading-nothing total buf file = read_so_far-eq (ground arith) (omega arith) (sym (append-nil buf))

read_loop_lem :
    {calls : List ReadCall} {size : ℕ} {file : List ℕ} (total : ℕ) (buf : List ℕ)
    → Serves calls size file
    → size + total < 2 ^ 32
    → read_loop calls size total buf ≡ returned (reading size total buf file)
unfolding read_loop
read_loop_lem {calls} {file = file} total buf served small =
    read_loop-zero calls total buf ∙ ap returned (reading-nothing total buf file)
read_loop_lem {size = size} {file = file} total buf (interrupted h) small =
    elim (Bool-cases (size == 0)) [
      | inl none_left ↦
          let e : size ≡ 0 = ground arith in rw e (ap returned (reading-nothing total buf file))
      | inr some_left ↦ rw some_left (read_loop_lem total buf h small)
    ]
read_loop_lem {calls = read_bytes _ ∷ calls} {size = size} total buf
      (next_bytes bytes rest some_bytes fit h) small =
    let first : (size == 0) ≡ false = ground arith in
    let second : (length bytes == 0) ≡ false = ground arith in
    let left : sub_u32 size (length bytes) ≡ size - length bytes = omega arith in
    let so_far : add_u32 total (length bytes) ≡ total + length bytes = omega arith in
    rw (first, second, left, so_far)
      (read_loop_lem (total + length bytes) (buf ++ bytes) h (omega arith)
        ∙ ap returned (
            read_so_far-eq (ground (arith, length-append bytes rest))
              (omega (arith, length-append bytes rest))
              (append_assoc buf bytes (take (size - length bytes) rest)
                ∙ ap (λ (bs : List ℕ). buf ++ bs) (sym (take-append bytes rest size fit)))))
read_loop_lem {size = size} total buf at_end small = elim (Bool-cases (size == 0)) [
  | inl none_left ↦
      let e : size ≡ 0 = ground arith in rw e (ap returned (reading-nothing total buf []))
  | inr some_left ↦
      let nothing : buf ≡ buf ++ take size [] =
        sym (append-nil buf)
        ∙ ap (λ (bs : List ℕ). buf ++ bs) (sym (take_all {A = ℕ} size [] (omega arith))) in
      rw some_left (ap returned (read_so_far-eq (ground arith) (omega arith) nothing))
]

-- For calls that serve a file, of fewer than 2^32 bytes asked for: `full_read` returns, with the next
-- bytes of the file, as many as asked for or all there are, with their number, and with `true` exactly
-- if the file ended before.
pub full_read_lem :
    {calls : List ReadCall} {size : ℕ} {file : List ℕ}
    → Serves calls size file
    → size < 2 ^ 32
    → full_read calls size
      ≡ returned (record {
        eof = ltb (length file) size;
        total = min (length file) size;
        buf = take size file;
      })
unfolding full_read
full_read_lem {size = size} {file = file} h small =
    read_loop_lem 0 [] h (omega arith) ∙ ap returned (read_so_far-eq refl (omega arith) refl)
