-- ===== src/CircBuff.antt =====
-- src/CircBuff.hpp and src/CircBuff.cpp: the ring of received bytes, mapped twice in a row so that a
-- copy of up to `capacity` bytes may run past the end.
pub mod Loop
pub mod Refine
mod Tests
use adaptive_transport.Common.{
  ℕ, ◌+◌, ◌-◌, ◌*◌, ◌%◌, ◌^◌, bit_and, List, [], ◌∷◌, leb, ltb, if◌then◌else◌, update, zero, suc,
}

-- `mem` is the one physical run of `capacity` bytes.
pub record CircBuff : Type 0 where
  pub capacity : ℕ
  pub mem : ℕ → ℕ
  pub widx : ℕ
  pub ridx : ℕ

-- `size_t` sums and differences.
abbrev pub add_size : ℕ → ℕ → ℕ
add_size a b = (a + b) % 2 ^ 64

abbrev pub sub_size : ℕ → ℕ → ℕ
sub_size a b = (a + 2 ^ 64 - b) % 2 ^ 64

-- `CircBuff::CircBuff`. Fresh anonymous pages hold zeros.
unfoldable pub init : ℕ → ℕ → CircBuff
init page_size num_pages = record {
  capacity = page_size * num_pages;
  mem = λ _. 0;
  widx = 0;
  ridx = 0;
}

-- The second mapping shows the first one's bytes again behind its end.
abbrev pub phys : ℕ → ℕ → ℕ
phys capacity i = if ltb i capacity then i else i - capacity

-- One round of the loops in `rptrAdvance` and `wptrAdvance`, up to the exchange.
abbrev pub next_index : ℕ → ℕ → ℕ → ℕ
next_index capacity idx num =
    let next = add_size idx num in if leb capacity next then next - capacity else next

unfoldable pub rptr_advance : CircBuff → ℕ → CircBuff
rptr_advance c num = record c { ridx = next_index c.capacity c.ridx num }

unfoldable pub wptr_advance : CircBuff → ℕ → CircBuff
wptr_advance c num = record c { widx = next_index c.capacity c.widx num }

-- memcpy (wptr (), bytes, n), from index `w` on.
abbrev pub copy_in : ℕ → (ℕ → ℕ) → ℕ → List ℕ → ℕ → ℕ
copy_in capacity mem w [] = mem
copy_in capacity mem w (b ∷ bs) = copy_in capacity (update mem (phys capacity w) b) (suc w) bs

unfoldable pub write_bytes : CircBuff → List ℕ → CircBuff
write_bytes c bytes = record c { mem = copy_in c.capacity c.mem c.widx bytes }

-- `n` bytes read at `rptr ()`.
abbrev pub copy_out : ℕ → (ℕ → ℕ) → ℕ → ℕ → List ℕ
copy_out capacity mem r zero = []
copy_out capacity mem r (suc n) = mem (phys capacity r) ∷ copy_out capacity mem (suc r) n

unfoldable pub read_bytes : CircBuff → ℕ → List ℕ
read_bytes c n = copy_out c.capacity c.mem c.ridx n

unfoldable pub used : CircBuff → ℕ
used c = bit_and (sub_size (add_size c.widx c.capacity) c.ridx) (sub_size c.capacity 1)

unfoldable pub free : CircBuff → ℕ
unfolding used
free c = sub_size c.capacity (used c)

unfoldable pub clear : CircBuff → CircBuff
clear c = record c { ridx = 0; widx = 0 }
