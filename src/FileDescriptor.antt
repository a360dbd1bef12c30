-- ===== src/FileDescriptor.antt =====
-- src/FileDescriptor.hpp and src/FileDescriptor.cpp: an open file with an owner, and `SystemCall` of
-- src/Util.hpp, which throws when a call of the system fails.
pub mod Ownership
pub mod Writing
mod Tests
use adaptive_transport.Common.{
  ℕ, zero, suc, ◌+◌, ◌%◌, ◌^◌, ◌*◌, min, Bool, true, false, ◌&&◌, not, Option, none, some, List, [],
  ◌∷◌, ◌++◌, ◌==◌, if◌then◌else◌, length, take, drop,
}
use adaptive_transport.Common.Int.{ℤ, pos, negsuc, ltb_ℤ}
use adaptive_transport.Common.Calls.{
  ReadCall, read_failed, read_bytes, WriteCall, write_failed, wrote,
}

pub record FileDescriptor : Type 0 where
  pub fd : ℤ
  pub eof : Bool
  pub read_count : ℕ
  pub write_count : ℕ

-- `threw` is a `unix_error` with its number, `exited` a call of `exit (1)`, and `blocked` the wait in a call whose
-- end is not given.
pub data Result (A : Type 0) : Type 0 where
  ok : A → Result A
  threw : ℕ → Result A
  exited : Result A
  blocked : Result A

-- `FileDescriptor::FileDescriptor (const int)`.
unfoldable pub init : ℤ → FileDescriptor
init fd = record { fd = fd; eof = false; read_count = 0; write_count = 0 }

-- The move constructor: the new object, and the other one as it leaves it.
unfoldable pub move : FileDescriptor → FileDescriptor × FileDescriptor
move other = (
  record {
    fd = other.fd;
    eof = other.eof;
    read_count = other.read_count;
    write_count = other.write_count;
  },
  record other { fd = negsuc 0 },
)

-- `FileDescriptor::~FileDescriptor`: the number that it closes, if any.
unfoldable pub destroy : FileDescriptor → Option ℤ
destroy d = if ltb_ℤ d.fd (pos 0) then none else some d.fd

abbrev pub register_read : FileDescriptor → FileDescriptor
register_read d = record d { read_count = (d.read_count + 1) % 2 ^ 32 }

abbrev pub register_write : FileDescriptor → FileDescriptor
register_write d = record d { write_count = (d.write_count + 1) % 2 ^ 32 }

abbrev pub set_eof : FileDescriptor → FileDescriptor
set_eof d = record d { eof = true }

-- `BUFFER_SIZE`.
abbrev pub buffer_size : ℕ
buffer_size = 1024 * 1024

-- The number of bytes that `read` asks for.
abbrev pub request : ℕ → ℕ
request limit = min buffer_size limit

-- `SystemCall` on the result of `::read`.
unfoldable pub checked_read : ReadCall → Result (List ℕ)
checked_read (read_failed errno) = threw errno
checked_read (read_bytes bytes) = ok bytes

-- `SystemCall` on the result of `::write`.
unfoldable pub checked_write : WriteCall → Result ℕ
checked_write (write_failed errno) = threw errno
checked_write (wrote n) = ok n

infixl 5 ◌>>=◌
abbrev pub ◌>>=◌ : {A B : Type 0} → Result A → (A → Result B) → Result B
ok a >>= f = f a
threw errno >>= f = threw errno
exited >>= f = exited
blocked >>= f = blocked

-- `FileDescriptor::read`, where the call for `request limit` bytes ends as given.
unfoldable pub read : FileDescriptor → ReadCall → Result (List ℕ × FileDescriptor)
unfolding checked_read
read d call = do
  bytes ← checked_read call
  ok (bytes, register_read (if length bytes == 0 then set_eof d else d))

-- The private `write`: the bytes that are left, and those written.
unfoldable pub write_part :
    FileDescriptor → List ℕ → WriteCall → Result (List ℕ × List ℕ × FileDescriptor)
unfolding checked_write
write_part d left call = if length left == 0 then exited else do
  n ← checked_write call
  if n == 0 then exited else ok (drop n left, take n left, register_write d)

-- The loop of `write`: the bytes that are left behind the iterator it returns, and those written so far.
unfoldable pub write_from :
    List WriteCall
    → Bool
    → FileDescriptor
    → (left file : List ℕ) → Result (List ℕ × List ℕ × FileDescriptor)
unfolding write_part
write_from [] write_all d left file = if length left == 0 then exited else blocked
write_from (call ∷ calls) write_all d left file = elim (write_part d left call) [
  | ok (left', bytes, d') ↦
      let rest = write_from calls write_all d' left' (file ++ bytes) in
      if write_all && not (length left' == 0) then rest else ok (left', file ++ bytes, d')
  | threw errno ↦ threw errno
  | exited ↦ exited
  | blocked ↦ blocked
]

unfoldable pub write :
    FileDescriptor → List ℕ → Bool → List WriteCall → Result (List ℕ × List ℕ × FileDescriptor)
unfolding write_from
write d buffer write_all calls = write_from calls write_all d buffer []
