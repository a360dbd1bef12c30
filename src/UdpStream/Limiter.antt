-- ===== src/UdpStream/Limiter.antt =====
-- `UDPStream::limiterStats`: the entries that can be read, summed up.
pub mod Reading
pub mod Control
mod Tests
use adaptive_transport.Common.{
  ℕ, zero, suc, ◌+◌, ◌-◌, ◌%◌, ◌^◌, Option, none, some, List, [], ◌∷◌, Bool, ◌==◌, ltb,
  if◌then◌else◌,
}
use adaptive_transport.Ptt.{Ptt, Entry, rptr, readable, read_advance}

-- The locals of the loop. `span` is (`ymin`, `ymax`), which the code leaves uninitialised until the first
-- entry with a receive time: `none`.
pub record Stats : Type 0 where
  pub nrecv : ℕ
  pub ndropped : ℕ
  pub span : Option (ℕ × ℕ)

abbrev pub no_stats : Stats
no_stats = record { nrecv = 0; ndropped = 0; span = none }

-- `tsRecv - tsSent` as an `int`, in two's complement, and `<` on such words.
abbrev pub int_difference : ℕ → ℕ → ℕ
int_difference ts_recv ts_sent = (ts_recv + 2 ^ 64 - ts_sent) % 2 ^ 32

abbrev pub int_lt : ℕ → ℕ → Bool
int_lt a b = ltb ((a + 2 ^ 31) % 2 ^ 32) ((b + 2 ^ 31) % 2 ^ 32)

-- `ymin` and `ymax` after a difference `y`.
abbrev pub widen : Option (ℕ × ℕ) → ℕ → ℕ × ℕ
widen none y = (y, y)
widen (some (ymin, ymax)) y = (if int_lt y ymin then y else ymin, if int_lt ymax y then y else ymax)

-- The branches of the loop's body on one entry. The vectors `xv` and `yv` are not read after the loop.
unfoldable pub note_entry : (ts_updated : ℕ) → Entry → Stats → Stats
note_entry ts_updated m s =
    if ltb m.ts_sent ts_updated
    then s
    else if m.ts_recv == 0
    then record s { ndropped = s.ndropped + 1 }
    else record s {
      nrecv = s.nrecv + 1;
      span = some (widen s.span (int_difference m.ts_recv m.ts_sent));
    }

-- The loop; each round takes an entry off those that can be read.
unfoldable pub limiter_loop : ℕ → (ts_updated : ℕ) → Ptt → Stats → Option (Stats × Ptt)
unfolding note_entry
limiter_loop zero ts_updated p s = none
limiter_loop (suc fuel) ts_updated p s = elim (rptr p) [
  | none ↦ some (s, p)
  | some m ↦ limiter_loop fuel ts_updated (read_advance p 1) (note_entry ts_updated m s)
]

unfoldable pub limiter_stats : (ts_updated : ℕ) → Ptt → Option (Stats × Ptt)
unfolding limiter_loop
limiter_stats ts_updated p = limiter_loop p.size ts_updated p no_stats
