-- ===== src/Common/Calls.antt =====
-- How one call of `read` or `write` of the system ends.
use Prim.Native.Nat.{ℕ}
use mathlib.Core.List.{List}

-- The number of `EINTR` on Linux.
abbrev pub eintr : ℕ
eintr = 4

-- -1 with its `errno`, or the bytes read: none at the end of the file.
pub data ReadCall : Type 0 where
  read_failed : ℕ → ReadCall
  read_bytes : List ℕ → ReadCall

-- -1 with its `errno`, or the number of bytes taken.
pub data WriteCall : Type 0 where
  write_failed : ℕ → WriteCall
  wrote : ℕ → WriteCall
