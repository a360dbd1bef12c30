-- ===== src/CircBuff/Refine.antt =====
-- A valid buffer behaves as a queue of bytes that holds less than `capacity` of them.
use native.Mathlib.Nat.{suc-mod, mod-eq_of_lt, one-le-pow}
use adaptive_transport.Common.{
  ℕ, zero, suc, ◌+◌, ◌-◌, ◌*◌, ◌%◌, ◌^◌, ◌≤◌, ◌<◌, ◌≡◌, refl, sym, ap, ap₂, ◌∙◌, bit_and, List, [],
  ◌∷◌, ◌++◌, append-nil, append_assoc, update, length, drop, take, arith,
}
use adaptive_transport.Common.Bits.{bit_and-mask}
use adaptive_transport.Common.Window.{
  window, length-window, window-mod, drop-window, gap, mod-gap, mod-wrap, add-gap-mod,
  window-update_end,
}
use adaptive_transport.CircBuff.{
  CircBuff, phys, add_size, sub_size, next_index, copy_in, write_bytes, wptr_advance, rptr_advance,
  used, free, copy_out, read_bytes, init,
}

-- The capacity is a power of two, of pages.
pub record IsValid (c : CircBuff) : Type 0 where
  pub power : (k : ℕ) × (c.capacity ≡ 2 ^ k)
  pub nonempty : 0 < c.capacity
  pub small : c.capacity ≤ 2 ^ 62
  pub write_in : c.widx < c.capacity
  pub read_in : c.ridx < c.capacity

pub used-gap : {c : CircBuff} → IsValid c → used c ≡ gap c.capacity c.widx c.ridx
unfolding used
used-gap {c} v =
    ap₂ bit_and minuend mask
    ∙ bit_and-mask v.power.0 (c.widx + c.capacity - c.ridx)
    ∙ ap (λ (t : ℕ). (c.widx + c.capacity - c.ridx) % t) (sym v.power.1)
    ∙ mod-gap c.capacity c.widx c.ridx v.write_in v.read_in
  where
    minuend : sub_size (add_size c.widx c.capacity) c.ridx ≡ c.widx + c.capacity - c.ridx
    minuend = omega (arith, v.small, v.write_in, v.read_in)

    mask : sub_size c.capacity 1 ≡ 2 ^ v.power.0 - 1
    mask = omega (arith, v.power.1, v.small, v.nonempty)

pub used-lt-capacity : {c : CircBuff} → IsValid c → used c < c.capacity
used-lt-capacity {c} v = ground (arith, used-gap v)

unfoldable pub contents : CircBuff → List ℕ
contents c = window c.mem c.capacity c.ridx (used c)

pub length-contents : (c : CircBuff) → length (contents c) ≡ used c
unfolding contents
length-contents c = length-window c.mem c.capacity c.ridx (used c)

phys-mod : (capacity i : ℕ) → i < capacity + capacity → phys capacity i ≡ i % capacity
phys-mod capacity i h = ground (arith, mod-wrap capacity i h)

next_index-mod :
    (capacity idx num : ℕ)
    → capacity ≤ 2 ^ 62
    → idx < capacity
    → num ≤ capacity
    → next_index capacity idx num ≡ (idx + num) % capacity
next_index-mod capacity idx num small h hn = ground (arith, mod-wrap capacity (idx + num))

-- Bytes copied behind a window of `m` entries extend it.
window-copy_in :
    (mem : ℕ → ℕ) (capacity i m w : ℕ) (bs : List ℕ)
    → (i + m) % capacity ≡ w % capacity
    → m + length bs ≤ capacity
    → w + length bs ≤ capacity + capacity
    → window (copy_in capacity mem w bs) capacity i (m + length bs) ≡ window mem capacity i m ++ bs
window-copy_in mem capacity i m w [] e room fits =
    ap (window mem capacity i) (omega arith) ∙ sym (append-nil (window mem capacity i m))
window-copy_in mem capacity i m w (b ∷ bs) e room fits =
    ap (window (copy_in capacity mem' (suc w) bs) capacity i) (omega arith)
    ∙ window-copy_in mem' capacity i (m + 1) (suc w) bs next (omega arith) (omega arith)
    ∙ ap (λ (xs : List ℕ). xs ++ bs)
        (window-update_end mem capacity i m (phys capacity w) b
          (phys-mod capacity w (omega arith) ∙ sym e) (omega arith))
    ∙ append_assoc (window mem capacity i m) (b ∷ []) bs
  where
    mem' : ℕ → ℕ
    mem' = update mem (phys capacity w) b

    next : (i + (m + 1)) % capacity ≡ suc w % capacity
    next =
        ap (λ (t : ℕ). t % capacity) (let t : i + (m + 1) ≡ suc (i + m) = omega arith in t)
        ∙ suc-mod (i + m) capacity
        ∙ ap (λ (t : ℕ). suc t % capacity) e
        ∙ sym (suc-mod w capacity)

-- memcpy and `wptrAdvance` for one run of bytes.
abbrev pub append : CircBuff → List ℕ → CircBuff
append c bytes = wptr_advance (write_bytes c bytes) (length bytes)

pub append-IsValid :
    {c : CircBuff} (bytes : List ℕ)
    → IsValid c
    → length bytes ≤ c.capacity
    → IsValid (append c bytes)
unfolding write_bytes wptr_advance
append-IsValid {c} bytes v h = record {
  power = v.power;
  nonempty = v.nonempty;
  small = v.small;
  write_in = ground arith;
  read_in = v.read_in;
}

pub rptr_advance-IsValid :
    {c : CircBuff} (num : ℕ) → IsValid c → num ≤ c.capacity → IsValid (rptr_advance c num)
unfolding rptr_advance
rptr_advance-IsValid {c} num v h = record {
  power = v.power;
  nonempty = v.nonempty;
  small = v.small;
  write_in = v.write_in;
  read_in = ground arith;
}

-- After `num` bytes are appended to a ring in order, up to a whole capacity of them, `used ()` is the
-- number of bytes held modulo the capacity: filling the buffer to its last byte makes it read as
-- empty.
pub used-append :
    {c : CircBuff} (bytes : List ℕ)
    → IsValid c
    → length bytes ≤ c.capacity
    → used (append c bytes) ≡ (used c + length bytes) % c.capacity
unfolding write_bytes wptr_advance
used-append {c} bytes v h =
    used-gap (append-IsValid bytes v h)
    ∙ ground (
      arith,
      v.small,
      v.write_in,
      v.read_in,
      used-gap v,
      mod-wrap c.capacity (used c + length bytes),
    )

-- In a ring in order, bytes that fit, with one byte to spare, come out behind those that the ring
-- holds.
pub contents-append :
    {c : CircBuff} (bytes : List ℕ)
    → IsValid c
    → used c + length bytes < c.capacity
    → contents (append c bytes) ≡ contents c ++ bytes
unfolding contents write_bytes wptr_advance
contents-append {c} bytes v room =
    ap (window (append c bytes).mem c.capacity c.ridx) count
    ∙ window-copy_in c.mem c.capacity c.ridx (used c) c.widx bytes place (omega arith)
        (omega (arith, v.write_in))
  where
    count : used (append c bytes) ≡ used c + length bytes
    count = used-append bytes v (omega arith) ∙ mod-eq_of_lt room

    place : (c.ridx + used c) % c.capacity ≡ c.widx % c.capacity
    place =
        ap (λ (t : ℕ). (c.ridx + t) % c.capacity) (used-gap v)
        ∙ add-gap-mod c.capacity c.widx c.ridx v.write_in v.read_in
        ∙ sym (mod-eq_of_lt v.write_in)

used-rptr_advance :
    {c : CircBuff} (num : ℕ) → IsValid c → num ≤ used c → used (rptr_advance c num) ≡ used c - num
unfolding rptr_advance
used-rptr_advance {c} num v h =
    used-gap (rptr_advance-IsValid num v (omega (arith, used-lt-capacity v)))
    ∙ ground (arith, v.small, v.write_in, v.read_in, used-gap v)

-- `rptrAdvance (num)` for at most as many bytes as are held drops exactly the first `num` of them, in
-- a ring in order.
pub contents-rptr_advance :
    {c : CircBuff} (num : ℕ)
    → IsValid c
    → num ≤ used c
    → contents (rptr_advance c num) ≡ drop num (contents c)
unfolding contents rptr_advance
contents-rptr_advance {c} num v h =
    ap₂ (window c.mem c.capacity) place (used-rptr_advance num v h)
    ∙ window-mod c.mem c.capacity (c.ridx + num) (used c - num)
    ∙ sym (drop-window c.mem c.capacity c.ridx num (used c) h)
  where
    place : next_index c.capacity c.ridx num ≡ (c.ridx + num) % c.capacity
    place =
        next_index-mod c.capacity c.ridx num v.small v.read_in (omega (arith, used-lt-capacity v))

copy_out-window :
    (capacity : ℕ) (mem : ℕ → ℕ) (r n m : ℕ)
    → n ≤ m
    → r + n ≤ capacity + capacity
    → copy_out capacity mem r n ≡ take n (window mem capacity r m)
copy_out-window capacity mem r zero m le fits = refl
copy_out-window capacity mem r (suc n) zero le fits = absurd (omega arith)
copy_out-window capacity mem r (suc n) (suc m) le fits =
    ap₂ ◌∷◌ (ap mem (phys-mod capacity r (omega arith)))
      (copy_out-window capacity mem (suc r) n m (omega arith) (omega arith))

-- The `n` bytes at `rptr ()`, for at most as many as are held, are the first `n` bytes held, in a ring
-- in order.
pub read_bytes-contents :
    {c : CircBuff} (n : ℕ) → IsValid c → n ≤ used c → read_bytes c n ≡ take n (contents c)
unfolding read_bytes contents
read_bytes-contents {c} n v h =
    copy_out-window c.capacity c.mem c.ridx n (used c) h
      (omega (arith, used-lt-capacity v, v.read_in))

-- `free ()` and `used ()` make up the capacity.
pub free-add-used : {c : CircBuff} → IsValid c → free c + used c ≡ c.capacity
unfolding free
free-add-used v = omega (arith, used-lt-capacity v, v.small)

pub init-IsValid :
    (k j page_size num_pages : ℕ)
    → page_size ≡ 2 ^ k
    → page_size * num_pages ≡ 2 ^ j
    → page_size * num_pages ≤ 2 ^ 62
    → IsValid (init page_size num_pages)
unfolding init
init-IsValid k j page_size num_pages ek ej small =
    let positive : 0 < page_size * num_pages = omega (arith, ej, one-le-pow j 2 (omega arith)) in
    record {
      power = (j, ej);
      nonempty = positive;
      small = small;
      write_in = positive;
      read_in = positive;
    }
