-- ===== src/FullIo.antt =====
-- src/fullio.cpp: `read` and `write`, repeated until all bytes are through. The calls of the system end as a
-- list says, one entry for each call.
pub mod Reads
pub mod Writes
mod Tests
use adaptive_transport.Common.{
  ℕ, zero, suc, ◌+◌, ◌-◌, ◌%◌, ◌^◌, Bool, true, false, List, [], ◌∷◌, ◌++◌, ◌==◌, if◌then◌else◌,
  length, take, drop,
}
use adaptive_transport.Common.Calls.{
  eintr, ReadCall, read_failed, read_bytes, WriteCall, write_failed, wrote,
}

-- `blocked`: the list is used up, and the loop waits in a call.
pub data Outcome (A : Type 0) : Type 0 where
  returned : A → Outcome A
  aborted : Outcome A
  blocked : Outcome A

-- What `full_read` returns, with what it has written to the buffer; `eof` is the first of the pair, and the
-- second is `total`.
pub record Reading : Type 0 where
  pub eof : Bool
  pub total : ℕ
  pub buf : List ℕ

abbrev pub sub_u32 : ℕ → ℕ → ℕ
sub_u32 a b = (a + 2 ^ 32 - b) % 2 ^ 32

abbrev pub add_u32 : ℕ → ℕ → ℕ
add_u32 a b = (a + b) % 2 ^ 32

-- The loops of `full_read`, where `size` bytes are left and `total` have been read.
unfoldable pub read_loop : List ReadCall → (size total : ℕ) → (buf : List ℕ) → Outcome Reading
read_loop [] size total buf =
    if size == 0 then returned (record { eof = false; total = total; buf = buf }) else blocked
read_loop (read_failed errno ∷ calls) size total buf =
    let again = read_loop calls size total buf in
    if size == 0
    then returned (record { eof = false; total = total; buf = buf })
    else if errno == eintr
    then again
    else aborted
read_loop (read_bytes bytes ∷ calls) size total buf =
    let rest =
      read_loop calls (sub_u32 size (length bytes)) (add_u32 total (length bytes)) (buf ++ bytes) in
    if size == 0
    then returned (record { eof = false; total = total; buf = buf })
    else if length bytes == 0
    then returned (record { eof = true; total = total; buf = buf })
    else rest

unfoldable pub full_read : List ReadCall → (size : ℕ) → Outcome Reading
unfolding read_loop
full_read calls size = read_loop calls size 0 []

-- The loops of `full_write`, for the bytes of the buffer that are left; `file` is what the calls have taken.
unfoldable pub write_loop :
    List WriteCall → (left : List ℕ) → (size total : ℕ) → (file : List ℕ) → Outcome (ℕ × List ℕ)
write_loop [] left size total file = if size == 0 then returned (total, file) else blocked
write_loop (write_failed errno ∷ calls) left size total file =
    let again = write_loop calls left size total file in
    if size == 0 then returned (total, file) else if errno == eintr then again else aborted
write_loop (wrote n ∷ calls) left size total file =
    let rest =
      write_loop calls (drop n left) (sub_u32 size n) (add_u32 total n) (file ++ take n left) in
    if size == 0 then returned (total, file) else rest

unfoldable pub full_write : List WriteCall → (buf : List ℕ) → (size : ℕ) → Outcome (ℕ × List ℕ)
unfolding write_loop
full_write calls buf size = write_loop calls buf size 0 []
