-- ===== src/FullIo/Writes.antt =====
-- `full_write` ends when the calls have taken the whole buffer.
use adaptive_transport.Common.{
  ℕ, ◌+◌, ◌-◌, ◌^◌, ◌≤◌, ◌<◌, ◌≡◌, refl, sym, ap, ap₂, ◌∙◌, false, inl, inr, Bool-cases, List, [],
  ◌∷◌, ◌++◌, append-nil, append_assoc, ◌==◌, length, length-drop, take, drop, take-append-drop,
  arith,
}
use adaptive_transport.Common.Calls.{eintr, WriteCall, write_failed, wrote}
use adaptive_transport.FullIo.{Outcome, returned, aborted, sub_u32, add_u32, write_loop, full_write}

-- The calls take `size` bytes between them, each at most what it is given, with no error but an interruption. A call
-- may take none.
pub data Takes : List WriteCall → ℕ → Type 0 where
  all_taken : {calls : List WriteCall} → Takes calls 0
  interrupted :
      {calls : List WriteCall} {size : ℕ}
      → Takes calls size
      → Takes (write_failed eintr ∷ calls) size
  some_taken :
      {calls : List WriteCall} {size : ℕ} (n : ℕ)
      → n ≤ size
      → Takes calls (size - n)
      → Takes (wrote n ∷ calls) size

write_loop-zero :
    (calls : List WriteCall) (left : List ℕ) (total : ℕ) (file : List ℕ)
    → write_loop calls left 0 total file ≡ returned (total, file)
unfolding write_loop
write_loop-zero [] left total file = refl
write_loop-zero (write_failed e ∷ calls) left total file = refl
write_loop-zero (wrote n ∷ calls) left total file = refl

abbrev done : ℕ → List ℕ → Outcome (ℕ × List ℕ)
done total file = returned (total, file)

nothing_left :
    (left : List ℕ) (total : ℕ) (file : List ℕ)
    → length left ≡ 0
    → done total file ≡ done (total + length left) (file ++ left)
nothing_left [] total file e =
    ap₂ (λ (t : ℕ) (f : List ℕ). done t f) (omega arith) (sym (append-nil file))
nothing_left (b ∷ left) total file e = absurd (omega arith)

write_loop_lem :
    {calls : List WriteCall} {size : ℕ} (left : List ℕ) (total : ℕ) (file : List ℕ)
    → Takes calls size
    → length left ≡ size
    → size + total < 2 ^ 32
    → write_loop calls left size total file ≡ done (total + length left) (file ++ left)
unfolding write_loop
write_loop_lem {calls} left total file all_taken e small =
    write_loop-zero calls left total file ∙ nothing_left left total file e
write_loop_lem {size = size} left total file (interrupted h) e small =
    elim (Bool-cases (size == 0)) [
      | inl none_left ↦ rw none_left (nothing_left left total file (ground arith))
      | inr some_left ↦ rw some_left (write_loop_lem left total file h e small)
    ]
write_loop_lem {size = size} left total file (some_taken n fit h) e small =
    elim (Bool-cases (size == 0)) [
      | inl none_left ↦ rw none_left (nothing_left left total file (ground arith))
      | inr some_left ↦
          let fewer : sub_u32 size n ≡ size - n = omega arith in
          let so_far : add_u32 total n ≡ total + n = omega arith in
          rw (some_left, fewer, so_far)
            (write_loop_lem (drop n left) (total + n) (file ++ take n left) h
                (omega (arith, length-drop n left)) (omega arith)
              ∙ ap₂ (λ (t : ℕ) (f : List ℕ). done t f) (omega (arith, length-drop n left))
                  (append_assoc file (take n left) (drop n left)
                    ∙ ap (λ (bs : List ℕ). file ++ bs) (take-append-drop n left)))
    ]

-- For calls that take a buffer of fewer than 2^32 bytes between them, in whatever pieces and with
-- whatever interruptions: `full_write` returns its length, and what the calls were given is the
-- buffer, each byte once and in order.
pub full_write_lem :
    {calls : List WriteCall} (buf : List ℕ)
    → Takes calls (length buf)
    → length buf < 2 ^ 32
    → full_write calls buf (length buf) ≡ returned (length buf, buf)
unfolding full_write
full_write_lem buf h small =
    write_loop_lem buf 0 [] h refl (omega arith) ∙ ap (λ (t : ℕ). done t buf) (omega arith)

-- The calls up to an error other than an interruption, of which none has taken all of the bytes.
pub data Fails : List WriteCall → ℕ → Type 0 where
  failed :
      {calls : List WriteCall} {size : ℕ} (errno : ℕ)
      → (errno == eintr) ≡ false
      → 0 < size
      → Fails (write_failed errno ∷ calls) size
  after_interrupt :
      {calls : List WriteCall} {size : ℕ}
      → Fails calls size
      → Fails (write_failed eintr ∷ calls) size
  after_some :
      {calls : List WriteCall} {size : ℕ} (n : ℕ)
      → n < size
      → Fails calls (size - n)
      → Fails (wrote n ∷ calls) size

Fails-size : {calls : List WriteCall} {size : ℕ} → Fails calls size → 0 < size
Fails-size (failed errno other h) = h
Fails-size (after_interrupt h) = Fails-size h
Fails-size (after_some n h rest) = omega arith

write_loop-aborts :
    {calls : List WriteCall} {size : ℕ} (left : List ℕ) (total : ℕ) (file : List ℕ)
    → Fails calls size
    → size < 2 ^ 32
    → write_loop calls left size total file ≡ aborted
unfolding write_loop
write_loop-aborts {size = size} left total file (failed errno other h) small =
    let first : (size == 0) ≡ false = ground arith in rw (first, other) refl
write_loop-aborts {size = size} left total file (after_interrupt h) small =
    let first : (size == 0) ≡ false = ground (arith, Fails-size h) in
    rw first (write_loop-aborts left total file h small)
write_loop-aborts {size = size} left total file (after_some n fit h) small =
    let first : (size == 0) ≡ false = ground arith in
    let fewer : sub_u32 size n ≡ size - n = omega arith in
    rw (first, fewer)
      (write_loop-aborts (drop n left) (add_u32 total n) (file ++ take n left) h (omega arith))

-- An error other than an interruption, before all bytes are taken: `full_write` calls `abort`.
pub full_write-aborts :
    {calls : List WriteCall} {size : ℕ} (buf : List ℕ)
    → Fails calls size
    → size < 2 ^ 32
    → full_write calls buf size ≡ aborted
unfolding full_write
full_write-aborts buf h small = write_loop-aborts buf 0 [] h small
