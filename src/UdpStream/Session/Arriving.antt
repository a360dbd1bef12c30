-- ===== src/UdpStream/Session/Arriving.antt =====
-- A datagram that comes in at the receiving end keeps what holds between the two ends.
use mathlib.Core.List.{map-append}
use adaptive_transport.Common.{
  ℕ, suc, ◌+◌, ◌^◌, ◌<◌, ◌≡◌, refl, sym, ap, subst, ◌∙◌, ◌⊎◌, inl, inr, false, List, [], ◌∷◌, ◌++◌,
  map, length, arith,
}
use adaptive_transport.Packet.{Packet, mtu, seq, payload, wire}
use adaptive_transport.CircBuff.Refine.{append}
use adaptive_transport.PacketQueue.{PacketQueue}
use adaptive_transport.UdpSocket.{Control, packet_timestamp, received}
use adaptive_transport.UdpSocket.Whole.{Same}
use adaptive_transport.UdpStream.Send.Fill.{IsData}
use adaptive_transport.UdpStream.Receive.{on_recv_data, on_recv}
use adaptive_transport.UdpStream.Receive.Order.{Inv, on_recv_data-Inv}
use adaptive_transport.UdpStream.Receive.Complete.{IsKept, on_recv_data-IsKept, on_recv_data_ends}
use adaptive_transport.UdpStream.Receive.Buffer.{Fits, view, on_recv_refines}
use adaptive_transport.UdpStream.Numbered.{chunks, nth-chunks}
use adaptive_transport.UdpStream.Incoming.{Endpoint, make_ack, on_data, incoming}
use adaptive_transport.UdpStream.Incoming.Ack.{taken_in, taken_in-Same}
use adaptive_transport.UdpStream.Incoming.Data.{IsAckOf, make_ack-IsAckOf, incoming-data-eq}
use adaptive_transport.UdpStream.Session.Datagram.{All-append, All-map, Carries}
use adaptive_transport.UdpStream.Session.Invariant.{
  Carries-IsData, Acks, Here, Keeps, Keeps-mono, collector, There,
}
use adaptive_transport.UdpStream.Session.Ahead.{ahead, on_recv_data-ahead}

module _ {S A : Type 0} (no_address from : A) {e : Endpoint S A} {taken : List ℕ} {ps : List Packet}
    (there : There e taken ps) (few : length ps < 2 ^ 31) (p : Packet) (i : ℕ) {bytes : List ℕ}
    (d : IsData p (1 + i) bytes) (inside : i < length ps) (carried : payload p ≡ chunks ps (suc i))
    (room : Fits e.receiver mtu) {t : ℕ} (small : t < 2 ^ 64) where
  r : Packet
  r = taken_in e.pkt p t

  same : Same r p t
  unfolding r
  same =
      taken_in-Same t d.valid there.pkt (omega (arith, d.length_of))
        (omega (arith, d.length_of, d.fits))

  place : seq r ≡ 1 + i
  place = omega (arith, same.number, d.number)

  content : payload r ≡ chunks ps (seq r)
  content =
      same.content ∙ carried ∙ ap (chunks ps) (let at : suc i ≡ seq r = omega (arith, place) in at)

  fits : Fits e.receiver (length (payload r))
  fits = record {
    valid = room.valid;
    room = omega (arith, room.room, ap length same.content, ap length d.content, d.fits);
  }

  delivered :
      collector (on_data e from r) taken ≡ on_recv_data ◌++◌ (collector e taken) (seq r) (payload r)
  unfolding on_data
  delivered =
      ap (ahead taken) (on_recv_refines e.receiver (seq r) (payload r) fits).0
      ∙ on_recv_data-ahead taken (view e.receiver) (seq r) (payload r)

  -- What was received stays so, and the packet that comes in is received.
  stays : (k : ℕ) → IsKept e.receiver k ⊎ (k ≡ seq r) → IsKept (on_data e from r).receiver k
  stays k kept =
      subst (λ x. IsKept x k) (sym delivered)
        (on_recv_data-IsKept (chunks ps) (length ps) few (collector e taken) (seq r) (payload r) k
          there.order (omega (arith, place)) content kept)

  Acks-mono : (w : List ℕ) → Acks e.receiver w → Acks (on_data e from r).receiver w
  Acks-mono w a = record {
    ack = a.ack;
    bytes = a.bytes;
    valid = a.valid;
    kind = a.kind;
    long = a.long;
    kept = stays (seq a.ack) (inl a.kept);
  }

  acks_r : IsAckOf (make_ack r) (seq p) t
  acks_r = make_ack-IsAckOf same.valid same.number same.stamped small

  reply : Acks (on_data e from r).receiver (wire (make_ack r))
  reply = record {
    ack = make_ack r;
    bytes = refl;
    valid = acks_r.valid;
    kind = acks_r.kind;
    long = acks_r.long;
    kept = stays (seq (make_ack r)) (inr (acks_r.number ∙ sym same.number));
  }

  sent_back :
      map (λ sent. sent.1) (on_data e from r).sent
      ≡ map (λ sent. sent.1) e.sent ++ wire (make_ack r) ∷ []
  unfolding on_data
  sent_back = map-append (λ sent. sent.1) e.sent ((from, wire (make_ack r)) ∷ [])

  arrives-There : There (on_data e from r) taken ps
  arrives-There = record {
    order = subst (Inv (chunks ps) (length ps)) (sym delivered) (
        on_recv_data-Inv (chunks ps) (length ps) (seq r) (payload r) few (omega (arith, place))
          content there.order);
    drained = unfold on_data on_recv in on_recv_data_ends append e.receiver (seq r) (payload r);
    buffer = unfold on_data in (on_recv_refines e.receiver (seq r) (payload r) fits).1.valid;
    pkt = unfold on_data in acks_r.valid;
    acks = rw sent_back (
        All-append (Acks (on_data e from r).receiver) (map (λ sent. sent.1) e.sent)
          (wire (make_ack r) ∷ [])
          (All-map (Acks e.receiver) (Acks (on_data e from r).receiver) Acks-mono _ there.acks)
          (reply, tt));
  }

  arrives-Keeps :
      {q : PacketQueue S} {n : ℕ} → Keeps q e.receiver n → Keeps q (on_data e from r).receiver n
  arrives-Keeps keeps = Keeps-mono (λ k kept. stays k (inl kept)) keeps

-- The round as the code makes it.
module _ {S A : Type 0} (no_address from : A) {e to : Endpoint S A} {taken text : List ℕ}
    {ps : List Packet} {q : PacketQueue S} {dseq : ℕ} {datagrams : List (List ℕ)} (w : List ℕ)
    (h : Here q dseq datagrams text ps) (there : There e taken ps) (c : Carries ps w)
    (room : Fits e.receiver mtu) (cmsg : Control) {t : ℕ} (time : packet_timestamp cmsg ≡ inr t)
    (small : t < 2 ^ 64)
    (runs : incoming no_address e (received from w false false cmsg) ≡ inr to) where
  carried_lem : ((bytes : List ℕ) × IsData c.1 (1 + c.0) bytes) × (c.0 < length ps)
  carried_lem = Carries-IsData ps text h.numbered w c

  ends : on_data e from (taken_in e.pkt c.1 t) ≡ to
  ends =
      let d = carried_lem.0.1 in
      let found : incoming no_address e (received from w false false cmsg)
          ≡ inr (on_data e from (taken_in e.pkt c.1 t)) =
        rw c.3 (
          incoming-data-eq no_address from e c.1 cmsg there.pkt d.valid d.kind
            (omega (arith, d.length_of)) (omega (arith, d.length_of, d.fits)) time) in
      cc (found, runs)

  pub arrived-There : There to taken ps
  arrived-There =
      subst (λ x. There x taken ps) ends
        (unfold r in
          arrives-There no_address from there h.few c.1 c.0 carried_lem.0.1 carried_lem.1
            (nth-chunks c.0 ps {p = c.1} c.2) room small)

  pub arrived-Keeps : {n : ℕ} → Keeps q e.receiver n → Keeps q to.receiver n
  arrived-Keeps {n} keeps =
      subst (λ x. Keeps q x.receiver n) ends
        (unfold r in
          arrives-Keeps no_address from there h.few c.1 c.0 carried_lem.0.1 carried_lem.1
            (nth-chunks c.0 ps {p = c.1} c.2) room small keeps)
