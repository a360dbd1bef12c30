-- ===== src/Packet/Header.antt =====
-- The header word: the two fields that `seq` and `isAck` read and write do not disturb each other.
use adaptive_transport.Common.{
  ℕ, ◌+◌, ◌*◌, ◌/◌, ◌%◌, ◌^◌, ◌<◌, ◌≡◌, ap, ◌∙◌, bit_and, bit_or, Bool, true, false, not, ◌==◌,
  if◌then◌else◌, length, drop, arith,
}
use adaptive_transport.Common.Bits.{bit_and-mask, bit_and-bit, bit_or-fields, bit_or_comm}
use adaptive_transport.Common.Bytes.{
  IsBytes, load_le-lt, load_le-store_le, length-store_le, store_le-IsBytes, drop-store_le,
}
use adaptive_transport.Packet.{
  Packet, mtu, word, set_word, ack_bit, seq_mask, is_ack, set_is_ack, seq, set_seq,
}

-- The buffer is the array of `MTU + 4` bytes.
pub record IsValid (p : Packet) : Type 0 where
  pub full : length p.buf ≡ mtu + 4
  pub bytes : IsBytes p.buf

pub word-lt : {p : Packet} → IsValid p → word p < 2 ^ 32
word-lt {p} v = load_le-lt 4 p.buf v.bytes

pub word-set_word : {p : Packet} (w : ℕ) → IsValid p → w < 2 ^ 32 → word (set_word p w) ≡ w
word-set_word {p} w v h = load_le-store_le 4 w p.buf (omega (arith, v.full)) h

pub set_word-IsValid : {p : Packet} (w : ℕ) → IsValid p → IsValid (set_word p w)
set_word-IsValid {p} w v = record {
  full = length-store_le 4 w p.buf ∙ v.full;
  bytes = store_le-IsBytes 4 w p.buf v.bytes;
}

-- The accessors as arithmetic on the header word.
pub seq-mod : (p : Packet) → seq p ≡ word p % 2 ^ 31
unfolding seq
seq-mod p = bit_and-mask 31 (word p)

pub is_ack-div : (p : Packet) → is_ack p ≡ not (word p / 2 ^ 31 % 2 * 2 ^ 31 == 0)
unfolding is_ack
is_ack-div p = ap (λ (t : ℕ). not (t == 0)) (bit_and-bit 31 (word p))

flag : Bool → ℕ
flag val = if val then 1 else 0

set_is_ack-word :
    (p : Packet) (val : Bool) → set_is_ack p val ≡ set_word p (word p % 2 ^ 31 + flag val * 2 ^ 31)
unfolding set_is_ack flag
set_is_ack-word p val = ap (set_word p) (
    ap (λ (t : ℕ). bit_or t (flag val * 2 ^ 31)) (bit_and-mask 31 (word p))
    ∙ bit_or-fields 31 (flag val) (word p % 2 ^ 31) (omega arith))

set_seq-word :
    (p : Packet) (val : ℕ)
    → set_seq p val ≡ set_word p (val % 2 ^ 31 + word p / 2 ^ 31 % 2 * 2 ^ 31)
unfolding set_seq
set_seq-word p val = ap (set_word p) (masks ∙ swap ∙ fields)
  where
    high : ℕ
    high = word p / 2 ^ 31 % 2

    masks :
        bit_or (bit_and (word p) ack_bit) (bit_and val seq_mask)
        ≡ bit_or (high * 2 ^ 31) (val % 2 ^ 31)
    masks =
        ap (λ (t : ℕ). bit_or t (bit_and val seq_mask)) (bit_and-bit 31 (word p))
        ∙ ap (bit_or (high * 2 ^ 31)) (bit_and-mask 31 val)

    swap : bit_or (high * 2 ^ 31) (val % 2 ^ 31) ≡ bit_or (val % 2 ^ 31) (high * 2 ^ 31)
    swap = bit_or_comm (2 ^ 32) (high * 2 ^ 31) (val % 2 ^ 31) (omega arith) (omega arith)

    fields : bit_or (val % 2 ^ 31) (high * 2 ^ 31) ≡ val % 2 ^ 31 + high * 2 ^ 31
    fields = bit_or-fields 31 high (val % 2 ^ 31) (omega arith)

-- Both accessors of a packet whose header word has just been written.
seq-set_word : {p : Packet} (w : ℕ) → IsValid p → w < 2 ^ 32 → seq (set_word p w) ≡ w % 2 ^ 31
seq-set_word {p} w v h = seq-mod (set_word p w) ∙ ap (λ (t : ℕ). t % 2 ^ 31) (word-set_word w v h)

is_ack-set_word :
    {p : Packet} (w : ℕ)
    → IsValid p
    → w < 2 ^ 32
    → is_ack (set_word p w) ≡ not (w / 2 ^ 31 % 2 * 2 ^ 31 == 0)
is_ack-set_word {p} w v h =
    is_ack-div (set_word p w)
    ∙ ap (λ (t : ℕ). not (t / 2 ^ 31 % 2 * 2 ^ 31 == 0)) (word-set_word w v h)

-- After `seq (val)` the packet reads `val` modulo 2^31 as its sequence number, and the ack flag that
-- it had before, for every packet with a whole buffer of bytes.
pub header-set_seq :
    {p : Packet} (val : ℕ)
    → IsValid p
    → (seq (set_seq p val) ≡ val % 2 ^ 31) × (is_ack (set_seq p val) ≡ is_ack p)
header-set_seq {p} val v =
    rw (set_seq-word p val, seq-set_word w v fits, is_ack-set_word w v fits, is_ack-div p)
      (omega arith, ap (λ (t : ℕ). not (t == 0)) (omega arith))
  where
    w : ℕ
    w = val % 2 ^ 31 + word p / 2 ^ 31 % 2 * 2 ^ 31

    fits : w < 2 ^ 32
    fits = omega arith

flag-back :
    (val : Bool) (r : ℕ)
    → r < 2 ^ 31
    → not ((r + flag val * 2 ^ 31) / 2 ^ 31 % 2 * 2 ^ 31 == 0) ≡ val
unfolding flag
flag-back true r h = ground arith
flag-back false r h = ground arith

-- After `isAck (val)` the packet reads `val` as its ack flag, and the sequence number that it had
-- before, for every packet with a whole buffer of bytes.
pub header-set_is_ack :
    {p : Packet} (val : Bool)
    → IsValid p
    → (is_ack (set_is_ack p val) ≡ val) × (seq (set_is_ack p val) ≡ seq p)
unfolding flag
header-set_is_ack {p} val v =
    rw (set_is_ack-word p val, seq-set_word w v fits, is_ack-set_word w v fits, seq-mod p)
      (flag-back val (word p % 2 ^ 31) (omega arith), ground arith)
  where
    w : ℕ
    w = word p % 2 ^ 31 + flag val * 2 ^ 31

    fits : w < 2 ^ 32
    fits = ground arith

-- Both writers keep the buffer whole, and all of it behind the header.
pub set_seq-IsValid : {p : Packet} (val : ℕ) → IsValid p → IsValid (set_seq p val)
unfolding set_seq
set_seq-IsValid val v = set_word-IsValid _ v

pub set_is_ack-IsValid : {p : Packet} (val : Bool) → IsValid p → IsValid (set_is_ack p val)
unfolding set_is_ack
set_is_ack-IsValid val v = set_word-IsValid _ v

pub drop-set_seq : (p : Packet) (val : ℕ) → drop 4 (set_seq p val).buf ≡ drop 4 p.buf
unfolding set_seq
drop-set_seq p val = drop-store_le 4 _ p.buf

pub drop-set_is_ack : (p : Packet) (val : Bool) → drop 4 (set_is_ack p val).buf ≡ drop 4 p.buf
unfolding set_is_ack
drop-set_is_ack p val = drop-store_le 4 _ p.buf
