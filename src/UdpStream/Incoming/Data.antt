-- ===== src/UdpStream/Incoming/Data.antt =====
-- A data packet that comes in is delivered and acked, and its ack settles it at the sender.
use adaptive_transport.Common.{
  ℕ, ◌+◌, ◌^◌, ◌≤◌, ◌<◌, ◌≡◌, refl, ap, ap₂, ◌∙◌, true, false, List, [], ◌∷◌, ◌++◌, inr, arith,
}
use adaptive_transport.Packet.{
  Packet, mtu, seq, is_ack, set_is_ack, ts_recv_ack, set_ts_recv_ack, payload, wire, set_size,
}
use adaptive_transport.Packet.Header
use adaptive_transport.Packet.Header.{header-set_is_ack, set_is_ack-IsValid}
use adaptive_transport.Packet.Payload.{ts_recv_ack-set_ts_recv_ack, set_ts_recv_ack-IsValid}
use adaptive_transport.PacketQueue.View.{in_flight, pending, InOrder}
use adaptive_transport.PacketQueue.Change.{change_first}
use adaptive_transport.UdpSocket.{Control, packet_timestamp, received}
use adaptive_transport.UdpSocket.Whole.{recv-Same}
use adaptive_transport.UdpStream.Receive.{on_recv}
use adaptive_transport.UdpStream.Incoming.{Endpoint, make_ack, on_data, incoming}
use adaptive_transport.UdpStream.Incoming.Branch.{incoming-recv, on_packet-data}
use adaptive_transport.UdpStream.Incoming.Ack.{
  with_times, taken_in, taken_in-Same, sized-IsValid, incoming-ack,
}

-- The ack of the packet with number `s` that was received at time `t`.
pub record IsAckOf (a : Packet) (s t : ℕ) : Type 0 where
  pub valid : Header.IsValid a
  pub kind : is_ack a ≡ true
  pub number : seq a ≡ s
  pub time : ts_recv_ack a ≡ t
  pub long : a.size ≡ 12

pub make_ack-IsAckOf :
    {r : Packet} {s t : ℕ}
    → Header.IsValid r
    → seq r ≡ s
    → r.ts_recv ≡ t
    → t < 2 ^ 64
    → IsAckOf (make_ack r) s t
unfolding set_size set_is_ack seq is_ack set_ts_recv_ack
make_ack-IsAckOf {r} v number stamped h = record {
  valid = set_ts_recv_ack-IsValid r.ts_recv sized-IsValid;
  kind = stored.2 ∙ flag.0;
  number = stored.1 ∙ flag.1 ∙ number;
  time = stored.0 ∙ stamped;
  long = refl;
}
  where
    sized : Packet
    sized = set_size (set_is_ack r true) 12

    flag : (is_ack (set_is_ack r true) ≡ true) × (seq (set_is_ack r true) ≡ seq r)
    flag = header-set_is_ack true v

    sized-IsValid : Header.IsValid sized
    sized-IsValid =
        let w = set_is_ack-IsValid true v in
        unfold set_size in record { full = w.full; bytes = w.bytes }

    stored :
        (ts_recv_ack (set_ts_recv_ack sized r.ts_recv) ≡ r.ts_recv)
        × (seq (set_ts_recv_ack sized r.ts_recv) ≡ seq sized)
        × (is_ack (set_ts_recv_ack sized r.ts_recv) ≡ is_ack sized)
    stored = ts_recv_ack-set_ts_recv_ack r.ts_recv sized-IsValid (omega (arith, stamped))

module _ {S A : Type 0} (no_address : A) where
  -- The endpoint after a data packet has come in.
  pub incoming-data-eq :
      (from : A) (e : Endpoint S A) (p : Packet) (cmsg : Control) {t : ℕ}
      → Header.IsValid e.pkt
      → Header.IsValid p
      → is_ack p ≡ false
      → 4 ≤ p.size
      → p.size ≤ mtu + 4
      → packet_timestamp cmsg ≡ inr t
      → incoming no_address e (received from (wire p) false false cmsg)
        ≡ inr (on_data e from (taken_in e.pkt p t))
  incoming-data-eq from e p cmsg {t} vq vp kind lo hi time =
      let (runs, same) = recv-Same vp (sized-IsValid vq) lo hi no_address from cmsg time in
      incoming-recv no_address e (received from (wire p) false false cmsg) runs
      ∙ on_packet-data e from (taken_in e.pkt p t) (omega (arith, same.long)) (same.kind ∙ kind)

  -- A data packet `p` of at least 4 bytes that comes in whole, time stamped `t`, is given to
  -- `onRecvData` with its number and its payload, and one datagram is sent in return, to the address
  -- that it came from: an ack with the same number that carries `t`; the queue stays as it is.
  pub incoming-data :
      (from : A) (e : Endpoint S A) (p : Packet) (cmsg : Control) {t : ℕ}
      → Header.IsValid e.pkt
      → Header.IsValid p
      → is_ack p ≡ false
      → 4 ≤ p.size
      → p.size ≤ mtu + 4
      → packet_timestamp cmsg ≡ inr t
      → t < 2 ^ 64
      → (e' : Endpoint S A) × (a : Packet) × (incoming no_address e
            (received from (wire p) false false cmsg)
          ≡ inr e')
        × (e'.receiver ≡ on_recv e.receiver (seq p) (payload p))
        × (e'.sent ≡ e.sent ++ (from, wire a) ∷ [])
        × IsAckOf a (seq p) t
        × (e'.queue ≡ e.queue)
  unfolding on_data
  incoming-data from e p cmsg {t} vq vp kind lo hi time small =
      let same = taken_in-Same t vp vq lo hi in
      (
        on_data e from (taken_in e.pkt p t),
        make_ack (taken_in e.pkt p t),
        incoming-data-eq from e p cmsg vq vp kind lo hi time,
        ap₂ (on_recv e.receiver) same.number same.content,
        refl,
        make_ack-IsAckOf same.valid same.number same.stamped small,
        refl,
      )

  -- The round trip of a packet of at least 4 bytes, for whole datagrams with a time stamp and a
  -- sender's queue in order: where the data packet `p` comes in at time `t`, and the datagram that is
  -- sent in return comes in at the sender at time `t'`, the first packet in flight there under that
  -- number is marked as received at `t` and acked at `t'`; the other packets in flight, those that
  -- wait, and all of the queue but its slots stay as they are.
  pub ack_returns :
      (here there : A) (e sender : Endpoint S A) (p : Packet) (cmsg cmsg' : Control) {t t' : ℕ}
      → Header.IsValid e.pkt
      → Header.IsValid sender.pkt
      → InOrder sender.queue
      → Header.IsValid p
      → is_ack p ≡ false
      → 4 ≤ p.size
      → p.size ≤ mtu + 4
      → packet_timestamp cmsg ≡ inr t
      → packet_timestamp cmsg' ≡ inr t'
      → t < 2 ^ 64
      → (e' sender' : Endpoint S A) × (reply : List ℕ) × (incoming no_address e
            (received there (wire p) false false cmsg)
          ≡ inr e')
        × (e'.sent ≡ e.sent ++ (there, reply) ∷ [])
        × (incoming no_address sender (received here reply false false cmsg') ≡ inr sender')
        × (in_flight sender'.queue
            ≡ change_first (seq p) (with_times t t') (in_flight sender.queue))
        × (pending sender'.queue ≡ pending sender.queue)
        × (sender'.queue ≡ record sender.queue { buf = sender'.queue.buf })
  ack_returns here there e sender p cmsg cmsg' {t} {t'} ve vs order vp kind lo hi time time' small =
      let (e', a, runs, _, replied, ack, _) =
        incoming-data there e p cmsg ve vp kind lo hi time small in
      let (sender', runs', noted, waits, _, _, _, frame) =
        incoming-ack no_address here sender a cmsg' order vs ack.valid ack.kind
          (omega (arith, ack.long)) (omega (arith, ack.long)) time' in
      (
        e',
        sender',
        wire a,
        runs,
        replied,
        runs',
        noted
            ∙ ap₂ (λ s f. change_first s f (in_flight sender.queue)) ack.number
                (ap (λ (x : ℕ). with_times x t') ack.time),
        waits,
        frame,
      )
