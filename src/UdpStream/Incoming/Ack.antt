-- ===== src/UdpStream/Incoming/Ack.antt =====
-- An ack that comes in is noted on the packet in flight that it answers, and on nothing else.
use mathlib.Core.Option
use adaptive_transport.Common.{
  ℕ, ◌+◌, ◌≤◌, ◌≡◌, refl, sym, ap, ap₂, ◌∙◌, true, false, none, List, [], ◌∷◌, inl, inr, arith,
}
use adaptive_transport.Packet.{
  Packet, mtu, seq, is_ack, ts_recv_ack, wire, set_size, set_ts_recv, set_ts_ack,
}
use adaptive_transport.Packet.Header
use adaptive_transport.PacketQueue.{PacketQueue, find}
use adaptive_transport.PacketQueue.View.{in_flight, pending, InOrder}
use adaptive_transport.PacketQueue.Search.{Lookup-cases, first_with, find_refines}
use adaptive_transport.PacketQueue.Change.{change_first, modify_found}
use adaptive_transport.UdpSocket.{Control, packet_timestamp, received}
use adaptive_transport.UdpSocket.Whole.{parsed, Same, parsed-Same, recv-Same}
use adaptive_transport.UdpStream.Incoming.Branch.{incoming-recv, on_packet-ack}
use adaptive_transport.UdpStream.Incoming.{Endpoint, note_ack, on_ack, incoming}

-- The packet with both times of its receipt.
abbrev pub with_times : ℕ → ℕ → Packet → Packet
with_times ts_recv ts_ack p = set_ts_ack (set_ts_recv p ts_recv) ts_ack

change_first-none :
    (s : ℕ) (f : Packet → Packet) (ps : List Packet)
    → first_with s ps ≡ none
    → change_first s f ps ≡ ps
unfolding change_first first_with
change_first-none s f [] e = refl
change_first-none s f (p ∷ ps) e = ground (arith, e, change_first-none s f ps)

pub on_ack_lem :
    {S : Type 0} {q : PacketQueue S} (pkt : Packet)
    → InOrder q
    → (in_flight (on_ack q pkt) ≡ change_first (seq pkt) (note_ack pkt) (in_flight q))
      × (pending (on_ack q pkt) ≡ pending q)
unfolding on_ack
on_ack_lem {S} {q} pkt v = elim (Lookup-cases (find q (seq pkt))) [
  | inl e ↦ let (r, ends, _) = find_refines (seq pkt) v in absurd (cc (e, ends))
  | inr (inl e) ↦
      rw (e, on_ack)
        (
          sym (
              change_first-none (seq pkt) (note_ack pkt) (in_flight q) (
                let (r, ends, first) = find_refines (seq pkt) v in
                let missed : r ≡ none = cc (e, ends) in sym first ∙ ap (Option.map q.buf) missed)),
          refl,
        )
  | inr (inr (i, e)) ↦ rw (e, on_ack) (modify_found (note_ack pkt) (seq pkt) v e)
]

-- An ack writes to packets, and to nothing else of the queue.
on_ack-frame :
    {S : Type 0} (q : PacketQueue S) (pkt : Packet)
    → on_ack q pkt ≡ record q { buf = (on_ack q pkt).buf }
unfolding on_ack
on_ack-frame q pkt = elim (Lookup-cases (find q (seq pkt))) [
  | inl e ↦ rw (e, on_ack) refl
  | inr (inl e) ↦ rw (e, on_ack) refl
  | inr (inr (i, e)) ↦ rw (e, on_ack) refl
]

-- The packet `p` as the receiving thread has it in its own packet `q`, at time `t`.
abbrev pub taken_in : Packet → Packet → ℕ → Packet
taken_in q p t = parsed (set_size q 0) p t

-- The packet with its size reset is as whole as before.
pub sized-IsValid : {q : Packet} → Header.IsValid q → Header.IsValid (set_size q 0)
unfolding set_size
sized-IsValid vq = record { full = vq.full; bytes = vq.bytes }

pub taken_in-Same :
    {p q : Packet} (t : ℕ)
    → Header.IsValid p
    → Header.IsValid q
    → 4 ≤ p.size
    → p.size ≤ mtu + 4
    → Same (taken_in q p t) p t
taken_in-Same {p} {q} t vp vq lo hi = parsed-Same vp (sized-IsValid vq) lo hi t

-- The endpoint after an ack has come in.
pub incoming-ack-eq :
    {S A : Type 0} (no_address from : A) (e : Endpoint S A) (p : Packet) (cmsg : Control) {t : ℕ}
    → Header.IsValid e.pkt
    → Header.IsValid p
    → is_ack p ≡ true
    → 4 ≤ p.size
    → p.size ≤ mtu + 4
    → packet_timestamp cmsg ≡ inr t
    → incoming no_address e (received from (wire p) false false cmsg)
      ≡ inr (record e {
        queue = on_ack e.queue (taken_in e.pkt p t);
        peer = from;
        pkt = taken_in e.pkt p t;
      })
incoming-ack-eq no_address from e p cmsg {t} vq vp kind lo hi time =
    let (runs, same) = recv-Same vp (sized-IsValid vq) lo hi no_address from cmsg time in
    incoming-recv no_address e (received from (wire p) false false cmsg) runs
    ∙ on_packet-ack e from (taken_in e.pkt p t) (omega (arith, same.long)) (same.kind ∙ kind)

-- An ack `p` of 12 bytes or more that comes in whole, time stamped `t`, where the queue is in order:
-- the first packet in flight under its number is marked as received at the time that the ack carries
-- and as acked at `t`; if there is none, nothing in flight changes; the packets that wait, all of the
-- queue but its slots, what is received and what is sent stay as they are; the peer is the address
-- that the ack came from.
pub incoming-ack :
    {S A : Type 0} (no_address from : A) (e : Endpoint S A) (p : Packet) (cmsg : Control) {t : ℕ}
    → InOrder e.queue
    → Header.IsValid e.pkt
    → Header.IsValid p
    → is_ack p ≡ true
    → 12 ≤ p.size
    → p.size ≤ mtu + 4
    → packet_timestamp cmsg ≡ inr t
    → (e' : Endpoint S A) × (incoming no_address e (received from (wire p) false false cmsg)
        ≡ inr e')
      × (in_flight e'.queue
          ≡ change_first (seq p) (with_times (ts_recv_ack p) t) (in_flight e.queue))
      × (pending e'.queue ≡ pending e.queue)
      × (e'.receiver ≡ e.receiver)
      × (e'.sent ≡ e.sent)
      × (e'.peer ≡ from)
      × (e'.queue ≡ record e.queue { buf = e'.queue.buf })
incoming-ack no_address from e p cmsg {t} v vq vp kind lo hi time =
    let same = taken_in-Same t vp vq (omega arith) hi in
    let (flies, waits) = on_ack_lem (taken_in e.pkt p t) v in
    (
      record e {
        queue = on_ack e.queue (taken_in e.pkt p t);
        peer = from;
        pkt = taken_in e.pkt p t;
      },
      incoming-ack-eq no_address from e p cmsg vq vp kind (omega arith) hi time,
      flies
          ∙ ap₂ (λ s f. change_first s f (in_flight e.queue)) same.number
              (ap₂ with_times (same.time lo) same.stamped),
      waits,
      refl,
      refl,
      refl,
      on_ack-frame e.queue (taken_in e.pkt p t),
    )
