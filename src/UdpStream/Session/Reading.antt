-- ===== src/UdpStream/Session/Reading.antt =====
-- A reader at the receiving end keeps what holds between the two ends.
use adaptive_transport.Common.{
  ℕ, ◌≤◌, ◌≡◌, sym, ap, ap₂, subst, ◌∙◌, List, ◌++◌, append_assoc, length, take-append-drop, arith,
}
use adaptive_transport.Packet.{Packet}
use adaptive_transport.CircBuff.{CircBuff, rptr_advance, used, read_bytes}
use adaptive_transport.CircBuff.Refine.{
  contents, used-lt-capacity, rptr_advance-IsValid, contents-rptr_advance, read_bytes-contents,
}
use adaptive_transport.PacketQueue.{PacketQueue}
use adaptive_transport.UdpStream.Receive.Order.{Inv}
use adaptive_transport.UdpStream.Numbered.{chunks}
use adaptive_transport.UdpStream.Incoming.{Endpoint}
use adaptive_transport.UdpStream.Session.Datagram.{All-map}
use adaptive_transport.UdpStream.Session.Invariant.{Acks, Keeps, Keeps-mono, There}

-- A reader takes the first bytes that are there.
abbrev pub read_from : {S A : Type 0} → Endpoint S A → ℕ → Endpoint S A
read_from e n = record e {
  receiver = record e.receiver { recv_buff = rptr_advance e.receiver.recv_buff n };
}

pub reads-There :
    {S A : Type 0} {e : Endpoint S A} {taken : List ℕ} {ps : List Packet} (n : ℕ)
    → There e taken ps
    → n ≤ used e.receiver.recv_buff
    → There (read_from e n) (taken ++ read_bytes e.receiver.recv_buff n) ps
reads-There {S} {A} {e} {taken} {ps} n there enough = record {
  order =
      subst (Inv (chunks ps) (length ps))
        (ap
          (λ xs. record {
            next_seq = e.receiver.next_seq;
            recv_map = e.receiver.recv_map;
            recv_buff = xs;
          })
          same)
        there.order;
  drained = there.drained;
  buffer = rptr_advance-IsValid n there.buffer (omega (arith, used-lt-capacity there.buffer));
  pkt = there.pkt;
  acks =
      All-map (Acks e.receiver) (Acks (read_from e n).receiver)
        (λ w a. record {
          ack = a.ack;
          bytes = a.bytes;
          valid = a.valid;
          kind = a.kind;
          long = a.long;
          kept = a.kept;
        })
        _ there.acks;
}
  where
    c : CircBuff
    c = e.receiver.recv_buff

    same : taken ++ contents c ≡ (taken ++ read_bytes c n) ++ contents (rptr_advance c n)
    same =
        ap (λ (xs : List ℕ). taken ++ xs)
          (sym (take-append-drop n (contents c))
            ∙ ap₂ (λ (xs ys : List ℕ). xs ++ ys) (sym (read_bytes-contents n there.buffer enough))
                (sym (contents-rptr_advance n there.buffer enough)))
        ∙ sym (append_assoc taken (read_bytes c n) (contents (rptr_advance c n)))

pub reads-Keeps :
    {S A : Type 0} {q : PacketQueue S} (e : Endpoint S A) {n : ℕ} (m : ℕ)
    → Keeps q e.receiver n
    → Keeps q (read_from e m).receiver n
reads-Keeps {S} {A} {q} e m keeps =
    Keeps-mono {q = q} {r = e.receiver} {r' = (read_from e m).receiver} (λ k kept. kept) keeps
