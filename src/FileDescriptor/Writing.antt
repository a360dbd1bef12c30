-- ===== src/FileDescriptor/Writing.antt =====
-- `write` with `write_all`, which is how programs call it.
use adaptive_transport.Common.{
  ℕ, ◌+◌, ◌-◌, ◌%◌, ◌^◌, ◌≤◌, ◌<◌, ◌≡◌, refl, ap, ap₂, ◌∙◌, true, false, List, [], ◌∷◌, ◌++◌,
  append_assoc, ◌==◌, length, length-drop, take, drop, take_all, drop_all, take-append-drop, arith,
}
use adaptive_transport.Common.Calls.{WriteCall, wrote}
use adaptive_transport.FileDescriptor.{
  FileDescriptor, Result, ok, register_write, checked_write, write_part, write_from, write,
}

-- The calls take `size` bytes between them, each at least one.
pub data Accepts : List WriteCall → ℕ → Type 0 where
  last : (n : ℕ) → 0 < n → Accepts (wrote n ∷ []) n
  part :
      {calls : List WriteCall} {size : ℕ} (n : ℕ)
      → 0 < n
      → n < size
      → Accepts calls (size - n)
      → Accepts (wrote n ∷ calls) size

-- The object after a number of calls that wrote.
abbrev pub after_writes : FileDescriptor → ℕ → FileDescriptor
after_writes d n = record d { write_count = (d.write_count + n) % 2 ^ 32 }

Accepts-size : {calls : List WriteCall} {size : ℕ} → Accepts calls size → 0 < size
Accepts-size (last n h) = h
Accepts-size (part n h k rest) = omega arith

abbrev result : List ℕ → List ℕ → FileDescriptor → Result (List ℕ × List ℕ × FileDescriptor)
result left file d = ok (left, file, d)

result-eq :
    {l1 l2 f1 f2 : List ℕ} {d1 d2 : FileDescriptor}
    → l1 ≡ l2
    → f1 ≡ f2
    → d1 ≡ d2
    → result l1 f1 d1 ≡ result l2 f2 d2
result-eq {l2 = l2} {f1} {d1 = d1} l f d =
    ap (λ (x : List ℕ). result x f1 d1) l
    ∙ ap₂ (λ (x : List ℕ) (y : FileDescriptor). result l2 x y) f d

write_part-ok :
    (d : FileDescriptor) (left : List ℕ) (n : ℕ)
    → 0 < n
    → n ≤ length left
    → write_part d left (wrote n) ≡ result (drop n left) (take n left) (register_write d)
unfolding write_part checked_write
write_part-ok d left n some_bytes fit =
    let first : (length left == 0) ≡ false = ground arith in
    let second : (n == 0) ≡ false = ground arith in rw (first, second) refl

write_from-all :
    {calls : List WriteCall} {size : ℕ} (d : FileDescriptor) (left file : List ℕ)
    → Accepts calls size
    → length left ≡ size
    → write_from calls true d left file ≡ result [] (file ++ left) (after_writes d (length calls))
unfolding write_from
write_from-all d left file (last n some_bytes) e =
    let none_left : (length (drop n left) == 0) ≡ true = ground (arith, length-drop n left) in
    rw (write_part-ok d left n some_bytes (omega arith), write_from, none_left)
      (result-eq (drop_all {A = ℕ} n left (omega arith))
        (ap (λ (bs : List ℕ). file ++ bs) (take_all {A = ℕ} n left (omega arith))) refl)
write_from-all d left file (part {calls} n some_bytes fit h) e =
    let more : (length (drop n left) == 0) ≡ false = ground (arith, length-drop n left) in
    let rest =
      write_from-all (register_write d) (drop n left) (file ++ take n left) h
        (omega (arith, length-drop n left)) in
    rw (write_part-ok d left n some_bytes (omega arith), write_from, more)
      (rest
        ∙ result-eq refl
            (append_assoc file (take n left) (drop n left)
              ∙ ap (λ (bs : List ℕ). file ++ bs) (take-append-drop n left))
            (ap (λ (k : ℕ). record d { write_count = k }) (omega arith)))

-- For calls that take the whole string between them, each at least a byte: `write` returns the
-- string's end, what the calls were given is the string, each byte once and in order, and each call is
-- counted.
pub write_lem :
    {calls : List WriteCall} (d : FileDescriptor) (buffer : List ℕ)
    → Accepts calls (length buffer)
    → write d buffer true calls ≡ ok ([], buffer, after_writes d (length calls))
unfolding write
write_lem d buffer h = write_from-all d buffer [] h refl
