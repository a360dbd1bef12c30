-- ===== src/UdpStream/Session/Invariant.antt =====
-- What holds between the two ends in every state that the steps reach, and facts that all steps share.
use adaptive_transport.Common.{
  inl, inr, ℕ, zero, suc, ◌+◌, ◌-◌, ◌%◌, ◌^◌, ◌≤◌, ◌<◌, ◌≡◌, refl, sym, ap, ◌∙◌, ◌⊎◌, true, none,
  ◌||◌, List, [], ◌∷◌, ◌++◌, map, length, length-append, arith,
}
use adaptive_transport.Common.Bytes.{All}
use adaptive_transport.Common.Window.{window}
use adaptive_transport.Packet.{Packet, mtu, seq, is_ack, wire}
use adaptive_transport.Packet.Header
use adaptive_transport.Packet.Payload.{length-wire}
use adaptive_transport.CircBuff.Refine
use adaptive_transport.CircBuff.Refine.{contents}
use adaptive_transport.PacketQueue.{PacketQueue}
use adaptive_transport.PacketQueue.View.{in_flight, pending}
use adaptive_transport.UdpStream.Send.Fill.{IsData}
use adaptive_transport.UdpStream.Send.Queued
use adaptive_transport.UdpStream.Held.{lookup}
use adaptive_transport.UdpStream.Receive.{Receiver}
use adaptive_transport.UdpStream.Receive.Order.{Inv}
use adaptive_transport.UdpStream.Receive.Complete.{IsKept}
use adaptive_transport.UdpStream.Numbered.{
  chunks, Numbered, nth-Numbered, chunks-append, joined-chunks-append,
}
use adaptive_transport.UdpStream.Incoming.{Endpoint}
use adaptive_transport.UdpStream.Settle.{is_set}
use adaptive_transport.UdpStream.Session.Datagram.{All-map, OneOf, Carries, number_of, seq-wire}

-- The numbers of some packets.
abbrev pub numbers : List Packet → List ℕ
numbers ps = map number_of (map wire ps)

pub numbers-append : (ps qs : List Packet) → numbers (ps ++ qs) ≡ numbers ps ++ numbers qs
numbers-append [] qs = refl
numbers-append (p ∷ ps) qs = ap (◌∷◌ (number_of (wire p))) (numbers-append ps qs)

-- A packet that an ack was noted on.
abbrev pub IsStamped : Packet → Type 0
IsStamped p = (is_set p.ts_ack || is_set p.ts_recv) ≡ true

-- The datagram is an ack of a packet that the receiver has.
pub record Acks {B : Type 0} (r : Receiver B) (w : List ℕ) : Type 0 where
  pub ack : Packet
  pub bytes : w ≡ wire ack
  pub valid : Header.IsValid ack
  pub kind : is_ack ack ≡ true
  pub long : ack.size ≡ 12
  pub kept : IsKept r (seq ack)

module _ {S : Type 0} where
  -- The sending end: its queue is in order, and what it sends are the packets of the text, `ps`.
  pub record Here (q : PacketQueue S) (dseq : ℕ) (datagrams : List (List ℕ)) (text : List ℕ)
      (ps : List Packet) : Type 0 where
    pub ready : Queued.IsReady (record { queue = q; dseq = dseq })
    pub fits : (i : ℕ) → (q.buf i).size ≤ mtu + 4
    pub numbered : Numbered 1 text ps
    pub counted : dseq ≡ 1 + length ps
    pub few : length ps < 2 ^ 31
    pub waits : All (Carries ps) (map wire (pending q))
    pub flies : All (Carries ps) (map wire (in_flight q))
    pub sent : All (Carries ps) datagrams

  -- What the sending end takes for received is received, and it still has every packet that is not.
  pub record Keeps {B : Type 0} (q : PacketQueue S) (r : Receiver B) (n : ℕ) : Type 0 where
    pub stamped : All (λ p. IsStamped p → IsKept r (seq p)) (in_flight q)
    pub covered :
        (k : ℕ)
        → 1 ≤ k
        → k ≤ n
        → IsKept r k ⊎ (OneOf k (numbers (in_flight q)) ⊎ OneOf k (numbers (pending q)))

module _ {S A : Type 0} where
  -- What the receiving end has delivered in all, taken or not.
  abbrev pub collector : Endpoint S A → List ℕ → Receiver (List ℕ)
  collector e taken = record {
    next_seq = e.receiver.next_seq;
    recv_map = e.receiver.recv_map;
    recv_buff = taken ++ contents e.receiver.recv_buff;
  }

  -- The receiving end: it has delivered the first packets of the stream, and holds later ones.
  pub record There (e : Endpoint S A) (taken : List ℕ) (ps : List Packet) : Type 0 where
    pub order : Inv (chunks ps) (length ps) (collector e taken)
    pub drained : lookup e.receiver.next_seq e.receiver.recv_map ≡ none
    pub buffer : Refine.IsValid e.receiver.recv_buff
    pub pkt : Header.IsValid e.pkt
    pub acks : All (Acks e.receiver) (map (λ sent. sent.1) e.sent)

-- A datagram of the stream is a data packet under its place's number.
pub Carries-IsData :
    (ps : List Packet) (text : List ℕ)
    → Numbered 1 text ps
    → (w : List ℕ) (c : Carries ps w)
    → ((bytes : List ℕ) × IsData c.1 (1 + c.0) bytes) × (c.0 < length ps)
Carries-IsData ps text numbered w (i, p, place, same) =
    nth-Numbered 1 text ps i {p = p} numbered place

-- The header of a slot that carries a packet of the stream can be read off its bytes.
pub seq-Carries :
    (ps : List Packet) (text : List ℕ) {p : Packet}
    → Numbered 1 text ps
    → Header.IsValid p
    → p.size ≤ mtu + 4
    → Carries ps (wire p)
    → seq p ≡ number_of (wire p)
seq-Carries ps text {p} numbered v fits c =
    let (_, q, _, same) = c in
    let ((bytes, d), _) = Carries-IsData ps text numbered (wire p) c in
    seq-wire p (
      omega (
        arith,
        ap length same,
        length-wire v fits,
        length-wire d.valid (omega (arith, d.length_of, d.fits)),
        d.length_of,
      ))

pub All-window :
    (P : Packet → Type 0) (f : ℕ → Packet) (size i n : ℕ)
    → ((k : ℕ) → P (f k))
    → All P (window f size i n)
All-window P f size i zero all = tt
All-window P f size i (suc n) all = (all (i % size), All-window P f size (suc i) n all)

chunks-zero : (ps : List Packet) → chunks ps 0 ≡ []
chunks-zero [] = refl
chunks-zero (p ∷ ps) = refl

-- More packets behind those of the stream.
pub Inv-append :
    (ps qs : List Packet) {c : Receiver (List ℕ)}
    → Inv (chunks ps) (length ps) c
    → Inv (chunks (ps ++ qs)) (length (ps ++ qs)) c
Inv-append ps qs {c} v = record {
  low = v.low;
  high = omega (arith, v.high, length-append ps qs);
  held = λ k w found. held k w (v.held k w found);
  delivered =
      v.delivered ∙ sym (joined-chunks-append ps qs (c.next_seq - 1) (omega (arith, v.high)));
}
  where
    held :
        (k : ℕ) (w : List ℕ)
        → (w ≡ chunks ps k) × (k ≤ length ps)
        → (w ≡ chunks (ps ++ qs) k) × (k ≤ length (ps ++ qs))
    held zero w (same, le) = (same ∙ chunks-zero ps ∙ sym (chunks-zero (ps ++ qs)), omega arith)
    held (suc k) w (same, le) =
        (same ∙ sym (chunks-append ps qs k (omega arith)), omega (arith, length-append ps qs))

-- Nothing more is asked of a receiver that has received more.
pub Keeps-mono :
    {S B : Type 0} {q : PacketQueue S} {r r' : Receiver B} {n : ℕ}
    → ((k : ℕ) → IsKept r k → IsKept r' k)
    → Keeps q r n
    → Keeps q r' n
Keeps-mono {S} {B} {q} {r} {r'} {n} mono keeps = record {
  stamped =
      All-map (λ p. IsStamped p → IsKept r (seq p)) (λ p. IsStamped p → IsKept r' (seq p))
        (λ p old e. mono (seq p) (old e)) (in_flight q) keeps.stamped;
  covered = λ k lo hi. elim (keeps.covered k lo hi) [
    | inl kept ↦ inl (mono k kept)
    | inr waits ↦ inr waits
  ];
}
