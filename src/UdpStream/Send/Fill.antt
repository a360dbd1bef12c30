-- ===== src/UdpStream/Send/Fill.antt =====
-- The packet that `send` writes over whatever the front slot held before.
use adaptive_transport.Common.{
  ℕ, ◌+◌, ◌-◌, ◌%◌, ◌^◌, ◌≤◌, min, ◌≡◌, refl, sym, ap, ◌∙◌, not, false, List, ◌==◌, length, take,
  drop, length-take, length-drop, bit_and, arith,
}
use adaptive_transport.Common.Bytes.{IsBytes}
use adaptive_transport.Packet.{
  Packet, mtu, word, ack_bit, seq_mask, seq, is_ack, set_seq, set_is_ack, set_size, copy_payload,
  payload,
}
use adaptive_transport.Packet.Header
use adaptive_transport.Packet.Header.{
  header-set_seq, header-set_is_ack, set_seq-IsValid, set_is_ack-IsValid,
}
use adaptive_transport.Packet.Payload.{
  copy_payload-IsValid, word-copy_payload, payload-copy_payload,
}
use adaptive_transport.UdpStream.Send.{fill}

-- A packet of the stream: a whole buffer, not an ack, with its number and its bytes.
pub record IsData (p : Packet) (dseq : ℕ) (bytes : List ℕ) : Type 0 where
  pub valid : Header.IsValid p
  pub number : seq p ≡ dseq % 2 ^ 31
  pub kind : is_ack p ≡ false
  pub length_of : p.size ≡ 4 + length bytes
  pub fits : length bytes ≤ mtu
  pub content : payload p ≡ bytes

-- The two accessors read the header word only.
same_word : (p q : Packet) → word p ≡ word q → (seq p ≡ seq q) × (is_ack p ≡ is_ack q)
unfolding seq is_ack
same_word p q e =
    (ap (λ (t : ℕ). bit_and t seq_mask) e, ap (λ (t : ℕ). not (bit_and t ack_bit == 0)) e)

-- The bytes that one round takes from the message.
abbrev pub piece : List ℕ → ℕ → List ℕ
piece msg remaining = take (min remaining mtu) (drop (length msg - remaining) msg)

pub length-piece :
    (msg : List ℕ) (remaining : ℕ)
    → remaining ≤ length msg
    → length (piece msg remaining) ≡ min remaining mtu
length-piece msg remaining h = omega (
  arith,
  length-take (min remaining mtu) (drop (length msg - remaining) msg),
  length-drop (length msg - remaining) msg,
)

pub size-fill :
    (msg : List ℕ) (dseq remaining : ℕ) (pkt : Packet)
    → (fill msg dseq remaining pkt).size ≡ 4 + min remaining mtu
unfolding fill copy_payload set_size
size-fill msg dseq remaining pkt = refl

module _ {pkt : Packet} (v : Header.IsValid pkt) (msg : List ℕ) (dseq remaining : ℕ) where
  headed : Packet
  headed = set_size (set_is_ack (set_seq pkt dseq) false) (4 + min remaining mtu)

  headed-IsValid : Header.IsValid headed
  unfolding headed set_size
  headed-IsValid =
      let w = set_is_ack-IsValid false (set_seq-IsValid dseq v) in
      record { full = w.full; bytes = w.bytes }

  headed-header : (seq headed ≡ dseq % 2 ^ 31) × (is_ack headed ≡ false)
  unfolding headed set_size
  headed-header =
      let w = set_seq-IsValid dseq v in
      let p2 = set_is_ack (set_seq pkt dseq) false in
      let (s, a) = same_word headed p2 refl in
      (
        s ∙ (header-set_is_ack false w).1 ∙ (header-set_seq dseq v).0,
        a ∙ (header-set_is_ack false w).0,
      )

  fill-headed : fill msg dseq remaining pkt ≡ copy_payload headed (piece msg remaining)
  unfolding fill headed set_size
  fill-headed =
      ap (λ n. copy_payload headed (take n (drop (length msg - remaining) msg))) (omega arith)

  -- Whatever packet the slot held, `fill` makes it the data packet with the number and the next bytes
  -- of the message that it is given, for as many bytes left as the message has or fewer.
  pub fill-IsData :
      IsBytes (piece msg remaining)
      → remaining ≤ length msg
      → IsData (fill msg dseq remaining pkt) dseq (piece msg remaining)
  unfolding copy_payload headed
  fill-IsData bytes h = rw fill-headed (record {
    valid = copy_payload-IsValid (piece msg remaining) bytes headed-IsValid;
    number = (same_word _ headed (word-copy_payload headed _)).0 ∙ headed-header.0;
    kind = (same_word _ headed (word-copy_payload headed _)).1 ∙ headed-header.1;
    length_of = sized ∙ sym (ap (λ n. 4 + n) (length-piece msg remaining h));
    fits = omega (arith, length-piece msg remaining h);
    content =
        payload-copy_payload (piece msg remaining) headed-IsValid
          (omega (arith, length-piece msg remaining h))
          (sized ∙ sym (ap (λ n. 4 + n) (length-piece msg remaining h)));
  })
    where
      sized : headed.size ≡ 4 + min remaining mtu
      sized = unfold headed set_size in refl
