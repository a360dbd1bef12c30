-- ===== src/TokenBucket.antt =====
-- src/TokenBucket.hpp and src/TokenBucket.cpp: the bucket that holds back the sender's thread. Its only
-- state is a time: tokens are the time since then at the rate asked for.
pub mod Rate
mod Tests
use adaptive_transport.Common.{
  ℕ, ◌+◌, ◌-◌, ◌*◌, ◌/◌, ◌%◌, ◌^◌, min, Bool, true, false, ◌==◌, ltb, if◌then◌else◌,
}

-- `uint64_t` difference.
abbrev pub sub_time : ℕ → ℕ → ℕ
sub_time a b = (a + 2 ^ 64 - b) % 2 ^ 64

-- What is left, put back as time.
unfoldable pub put_back : (left ts_now rate : ℕ) → ℕ
put_back left ts_now rate = sub_time ts_now (left * 1000000 % 2 ^ 64 / rate)

-- `credit diff rate burst` is `(uint32_t) std::min ((double) burst, (double) diff * (double) rate / 1000000.0)`,
-- in the machine's floating point. `ts_last` is `m_tsLast`, 0 before the first call that lets bytes through.
module _ (credit : (diff rate burst : ℕ) → ℕ) where
  unfoldable pub tokens : (ts_last ts_now rate burst : ℕ) → ℕ
  tokens ts_last ts_now rate burst =
      if ts_last == 0 then burst else credit (sub_time ts_now ts_last) rate burst

  -- `TokenBucket::consume` for a positive rate, at time `ts_now`: whether the bytes may go, and `m_tsLast`.
  unfoldable pub consume : (ts_last ts_now bytes rate burst : ℕ) → Bool × ℕ
  unfolding tokens put_back
  consume ts_last ts_now bytes rate burst =
      let available = tokens ts_last ts_now rate burst in
      if ltb available bytes
      then (false, ts_last)
      else (true, put_back (available - bytes) ts_now rate)
