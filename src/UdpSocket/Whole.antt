-- ===== src/UdpSocket/Whole.antt =====
-- A whole datagram that `recv` takes in is the packet that was sent, in another buffer.
use adaptive_transport.Common.{
  ℕ, ◌+◌, ◌-◌, ◌%◌, ◌^◌, ◌≤◌, ◌≡◌, refl, sym, ap, ◌∙◌, false, drop, length, inr, arith,
}
use adaptive_transport.Common.Bytes.{load_le, load_le-take}
use adaptive_transport.Packet.{
  Packet, mtu, seq, is_ack, ts_recv_ack, payload, wire, copy_buf, set_size, set_ts_recv,
}
use adaptive_transport.Packet.Header
use adaptive_transport.Packet.Payload.{wire-received, wire-IsBytes, length-wire, copy_buf-IsValid}
use adaptive_transport.UdpSocket.{Control, packet_timestamp, received, recv}

-- The packet `p` as it is received at time `t` into the packet `q`.
abbrev pub parsed : Packet → Packet → ℕ → Packet
parsed q p t = set_ts_recv (set_size (copy_buf q (wire p)) p.size) t

-- What the receiver reads in a datagram that carries `p`.
pub record Same (r p : Packet) (t : ℕ) : Type 0 where
  pub valid : Header.IsValid r
  pub number : seq r ≡ seq p
  pub kind : is_ack r ≡ is_ack p
  pub content : payload r ≡ payload p
  pub time : 12 ≤ p.size → ts_recv_ack r ≡ ts_recv_ack p
  pub long : r.size ≡ p.size
  pub stamped : r.ts_recv ≡ t

ts_recv_ack-payload : (p : Packet) → 12 ≤ p.size → ts_recv_ack p ≡ load_le 8 (payload p)
unfolding ts_recv_ack payload
ts_recv_ack-payload p h = sym (load_le-take 8 (p.size - 4) (drop 4 p.buf) (omega arith))

module _ {p q : Packet} (vp : Header.IsValid p) (vq : Header.IsValid q) (lo : 4 ≤ p.size)
    (hi : p.size ≤ mtu + 4) where
  pub parsed-Same : (t : ℕ) → Same (parsed q p t) p t
  unfolding set_ts_recv set_size seq is_ack payload ts_recv_ack
  parsed-Same t = record {
    valid =
        let w = copy_buf-IsValid (wire p) (wire-IsBytes vp) vq in
        record { full = w.full; bytes = w.bytes };
    number = header.0;
    kind = header.1;
    content = header.2;
    time = λ long.
        ts_recv_ack-payload (parsed q p t) long
        ∙ ap (load_le 8) header.2
        ∙ sym (ts_recv_ack-payload p long);
    long = refl;
    stamped = refl;
  }
    where
      r : Packet
      r = set_size (copy_buf q (wire p)) p.size

      header : (seq r ≡ seq p) × (is_ack r ≡ is_ack p) × (payload r ≡ payload p)
      header = wire-received vp vq lo hi

  -- A datagram with a whole header that comes in untruncated, with a time stamp, is received: over any
  -- packet's buffer, `recv` gives the address that it came from and a packet with the same number,
  -- kind, size and payload as the packet sent, that bears the time stamp.
  pub recv-Same :
      {A : Type 0} (no_address from : A) (cmsg : Control) {t : ℕ}
      → packet_timestamp cmsg ≡ inr t
      → (recv no_address q (received from (wire p) false false cmsg) ≡ inr (from, parsed q p t))
        × Same (parsed q p t) p t
  unfolding recv
  recv-Same no_address from cmsg {t} e =
      let size : length (wire p) % 2 ^ 16 ≡ p.size = omega (arith, length-wire vp hi) in
      (rw (e, size) refl, parsed-Same t)
