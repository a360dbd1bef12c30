-- ===== src/RollingWindow.antt =====
-- src/RollingWindow.hpp and src/RollingWindow.cpp: the last values of a series, in a ring.
pub mod Index
pub mod Recent
mod Tests
use mathlib.Core.Option
use adaptive_transport.Common.{
  ℕ, zero, suc, ◌+◌, ◌%◌, ◌^◌, Bool, true, false, not, ◌||◌, Option, none, some, ◌==◌, leb,
  if◌then◌else◌, update,
}
use adaptive_transport.Common.Int.{ℤ, pos, pos_part, neg_part, ◌+ℤ◌, ◌-ℤ◌, ltb_ℤ}

-- `W` is `double`. `m_head` is never negative; `count` is the word of
-- `m_count`; `buf` is the vector, whose size is `size`.
pub record RollingWindow (W : Type 0) : Type 0 where
  pub head : ℕ
  pub count : ℕ
  pub size : ℕ
  pub buf : ℕ → W

-- The step of `m_head`, also at size 0, where it counts on.
abbrev pub next_head : ℕ → ℕ → ℕ
next_head size head = if head + 1 == size then 0 else head + 1

-- `while (idx < 0) idx += size` and `while (idx >= size) idx -= size`.
unfoldable pub raise : ℕ → ℕ → ℤ → ℤ
raise zero size idx = idx
raise (suc fuel) size idx =
    let rest = raise fuel size (idx +ℤ pos size) in if ltb_ℤ idx (pos 0) then rest else idx

unfoldable pub lower : ℕ → ℕ → ℤ → ℤ
lower zero size idx = idx
lower (suc fuel) size idx =
    let rest = lower fuel size (idx -ℤ pos size) in if ltb_ℤ idx (pos size) then idx else rest

-- The place of the value `t` steps back: `none` where the assertion fails or the fuel, one round for
-- each unit of the index, has run out.
unfoldable pub place : ℕ → ℕ → ℤ → Option ℕ
unfolding raise lower
place size head t =
    let idx = pos head -ℤ t in
    let up = raise (neg_part idx) size idx in
    let down = lower (pos_part up) size up in
    if ltb_ℤ down (pos 0) || not (ltb_ℤ down (pos size)) then none else some (pos_part down)

module _ {W : Type 0} where
  -- `RollingWindow::RollingWindow`.
  unfoldable pub init : (ℕ → W) → RollingWindow W
  init memory = record { head = 0; count = 0; size = 0; buf = memory }

  -- `RollingWindow::size (int)`, which fills the vector with `nought`.
  unfoldable pub resize : W → RollingWindow W → ℕ → RollingWindow W
  resize nought w size = record { head = 0; count = 0; size = size; buf = λ _. nought }

  -- `operator ()`.
  unfoldable pub push : RollingWindow W → W → RollingWindow W
  push w val =
      let head' = next_head w.size w.head in
      record w { count = (w.count + 1) % 2 ^ 32; head = head'; buf = update w.buf head' val }

  -- `operator[]`.
  unfoldable pub at : RollingWindow W → ℤ → Option W
  unfolding place
  at w t = Option.map w.buf (place w.size w.head t)
