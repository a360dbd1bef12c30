-- ===== src/UdpStream/Retransmit/Copy.antt =====
-- The copy that `retransmitOlderThan` makes, as one write to the front slot.
use adaptive_transport.Common.{
  ℕ, ◌+◌, ◌≤◌, ◌≡◌, ◌≢◌, refl, ap, fun_ext, true, false, inl, inr, Bool-cases, ◌==◌, take, update,
  arith,
}
use adaptive_transport.Common.Bytes.{take-IsBytes}
use adaptive_transport.Packet.{Packet, mtu, seq, set_seq, set_is_ack, set_size, copy_buf, wire}
use adaptive_transport.Packet.Header
use adaptive_transport.Packet.Header.{set_seq-IsValid, set_is_ack-IsValid}
use adaptive_transport.Packet.Payload.{take-overwrite-take, copy_buf-IsValid}
use adaptive_transport.PacketQueue.{PacketQueue, modify, copy_oldest}
use adaptive_transport.PacketQueue.Resend.{IsCopyOf}

-- The four writes, of a packet in another slot.
unfoldable pub copy_unacked : Packet → Packet → Packet
copy_unacked p f =
    copy_buf (set_size (set_is_ack (set_seq f (seq p)) false) p.size) (take p.size p.buf)

update-twice : {A : Type 0} (b : ℕ → A) (f : ℕ) (x y : A) → update (update b f x) f y ≡ update b f y
update-twice b f x y =
    fun_ext (λ i. elim (Bool-cases (i == f)) [ inl e ↦ rw e refl | inr e ↦ rw e refl ])

pub copy_oldest-eq :
    {S : Type 0} (q : PacketQueue S) (f : ℕ)
    → q.unacked_idx ≢ f
    → copy_oldest q f ≡ modify q f (copy_unacked (q.buf q.unacked_idx))
unfolding copy_oldest copy_unacked set_size copy_buf
copy_oldest-eq q f other =
    let apart : (q.unacked_idx == f) ≡ false = ground (arith, other) in
    let self : (f == f) ≡ true = ground arith in
    ap (λ (b : ℕ → Packet). record q { buf = b })
      (fun_ext (λ i. elim (Bool-cases (i == f)) [
        | inl here ↦ rw (here, apart, self) refl
        | inr away ↦ rw away refl
      ]))

-- The header's writes before the copy.
abbrev written : Packet → Packet → Packet
written p f = set_is_ack (set_seq f (seq p)) false

written-IsValid : (p f : Packet) → Header.IsValid f → Header.IsValid (written p f)
written-IsValid p f w = set_is_ack-IsValid false (set_seq-IsValid (seq p) w)

size-copy_unacked : (p f : Packet) → (copy_unacked p f).size ≡ p.size
unfolding copy_unacked copy_buf set_size
size-copy_unacked p f = refl

copy_unacked-IsValid :
    {p f : Packet} → Header.IsValid p → Header.IsValid f → Header.IsValid (copy_unacked p f)
unfolding copy_unacked copy_buf set_size
copy_unacked-IsValid {p} {f} v w =
    let c =
      copy_buf-IsValid (take p.size p.buf) (take-IsBytes p.size p.buf v.bytes)
        (written-IsValid p f w) in
    record { full = c.full; bytes = c.bytes }

wire-copy_unacked :
    {p f : Packet}
    → Header.IsValid p
    → Header.IsValid f
    → p.size ≤ mtu + 4
    → wire (copy_unacked p f) ≡ wire p
unfolding copy_unacked copy_buf set_size wire
wire-copy_unacked {p} {f} v w h =
    let c = written-IsValid p f w in
    take-overwrite-take p.size p.buf (written p f).buf (omega (arith, v.full))
      (omega (arith, c.full))

pub copy_unacked-IsCopyOf :
    {p : Packet} → Header.IsValid p → p.size ≤ mtu + 4 → IsCopyOf p (copy_unacked p)
copy_unacked-IsCopyOf {p} v h = record {
  size = size-copy_unacked p;
  header = λ f w. copy_unacked-IsValid v w;
  bytes = λ f w. wire-copy_unacked v w h;
}
