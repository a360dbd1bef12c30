-- ===== src/UdpStream/Session/Acking.antt =====
-- An ack that comes in at the sending end keeps what holds between the two ends.
use adaptive_transport.Common.{
  ℕ, ◌+◌, ◌≤◌, ◌≡◌, refl, ap, subst, ◌∙◌, inl, inr, Bool-cases, ==→eq, List, [], ◌∷◌, map, ◌==◌,
  arith,
}
use adaptive_transport.Common.Bytes.{All}
use adaptive_transport.Packet.{Packet, mtu, set_ts_recv, set_ts_ack, seq, wire}
use adaptive_transport.Packet.Header
use adaptive_transport.PacketQueue.{PacketQueue, modify, find}
use adaptive_transport.PacketQueue.Search.{Lookup-cases}
use adaptive_transport.PacketQueue.View.{in_flight, pending}
use adaptive_transport.PacketQueue.Change.{change_first}
use adaptive_transport.PacketQueue.Reach.{stamps-IsValid}
use adaptive_transport.UdpStream.Receive.{Receiver}
use adaptive_transport.UdpStream.Receive.Complete.{IsKept}
use adaptive_transport.UdpStream.Incoming.{note_ack, on_ack}
use adaptive_transport.UdpStream.Incoming.Ack.{on_ack_lem}
use adaptive_transport.UdpStream.Send.Queued
use adaptive_transport.UdpStream.Session.Datagram.{number_of}
use adaptive_transport.UdpStream.Session.Invariant.{IsStamped, Here, Keeps}

All-change_first :
    (P : Packet → Type 0) (s : ℕ) (f : Packet → Packet) (ps : List Packet)
    → ((p : Packet) → seq p ≡ s → P (f p))
    → All P ps
    → All P (change_first s f ps)
unfolding change_first
All-change_first P s f [] changed all = tt
All-change_first P s f (p ∷ ps) changed all = elim (Bool-cases (seq p == s)) [
  | inl here ↦ rw here (changed p (==→eq (seq p) s here), all.1)
  | inr other ↦ rw other (all.0, All-change_first P s f ps changed all.1)
]

wires-change_first :
    (s : ℕ) (f : Packet → Packet) (ps : List Packet)
    → ((p : Packet) → wire (f p) ≡ wire p)
    → map wire (change_first s f ps) ≡ map wire ps
unfolding change_first
wires-change_first s f [] same = refl
wires-change_first s f (p ∷ ps) same = elim (Bool-cases (seq p == s)) [
  | inl here ↦ rw here (ap (λ (w : List ℕ). w ∷ map wire ps) (same p))
  | inr other ↦ rw other (ap (λ (ws : List (List ℕ)). wire p ∷ ws) (wires-change_first s f ps same))
]

-- The two stamps change neither the header nor the bytes.
note_ack-same :
    (r p : Packet)
    → (wire (note_ack r p) ≡ wire p) × (seq (note_ack r p) ≡ seq p) × ((note_ack r p).size ≡ p.size)
unfolding set_ts_recv set_ts_ack wire seq
note_ack-same r p = (refl, refl, refl)

note_ack-IsValid : (r : Packet) {p : Packet} → Header.IsValid p → Header.IsValid (note_ack r p)
unfolding set_ts_recv set_ts_ack
note_ack-IsValid r v = record { full = v.full; bytes = v.bytes }

module _ {S : Type 0} {q : PacketQueue S} {dseq : ℕ} {datagrams : List (List ℕ)} {text : List ℕ}
    {ps : List Packet} (h : Here q dseq datagrams text ps) (r : Packet) where
  effect :
      (in_flight (on_ack q r) ≡ change_first (seq r) (note_ack r) (in_flight q))
      × (pending (on_ack q r) ≡ pending q)
  effect = on_ack_lem r h.ready.valid.ordered

  same_wires : map wire (in_flight (on_ack q r)) ≡ map wire (in_flight q)
  same_wires =
      ap (map wire) effect.0
      ∙ wires-change_first (seq r) (note_ack r) (in_flight q) (λ p. (note_ack-same r p).0)

  slot-note_ack :
      (i k : ℕ)
      → Header.IsValid ((modify q i (note_ack r)).buf k)
        × ((modify q i (note_ack r)).buf k).size ≤ mtu + 4
  slot-note_ack i k = elim (Bool-cases (k == i)) [
    | inl here ↦
        rw here
          (note_ack-IsValid r (h.ready.slots i), omega (arith, note_ack-same r (q.buf i), h.fits i))
    | inr other ↦ rw other (h.ready.slots k, h.fits k)
  ]

  ready :
      Queued.IsReady (record { queue = on_ack q r; dseq = dseq })
      × ((k : ℕ) → ((on_ack q r).buf k).size ≤ mtu + 4)
  unfolding on_ack
  ready = elim (Lookup-cases (find q (seq r))) [
    | inl e ↦ rw (e, on_ack) (h.ready, h.fits)
    | inr (inl e) ↦ rw (e, on_ack) (h.ready, h.fits)
    | inr (inr (i, e)) ↦
        rw (e, on_ack)
          (
            record {
              valid =
                  stamps-IsValid (λ s. s) q i (note_ack r) (λ p. (note_ack-same r p).2)
                    h.ready.valid;
              free = h.ready.free;
              slots = λ k. (slot-note_ack i k).0;
              wraps = h.ready.wraps;
            },
            λ k. (slot-note_ack i k).1,
          )
  ]

  pub acked-Here : Here (on_ack q r) dseq datagrams text ps
  acked-Here = record {
    ready = ready.0;
    fits = ready.1;
    numbered = h.numbered;
    counted = h.counted;
    few = h.few;
    waits = rw (effect.1) h.waits;
    flies = rw same_wires h.flies;
    sent = h.sent;
  }

  pub acked-Keeps :
      {B : Type 0} {c : Receiver B} {n : ℕ}
      → IsKept c (seq r)
      → Keeps q c n
      → Keeps (on_ack q r) c n
  acked-Keeps {B} {c} {n} kept keeps = record {
    stamped = rw (effect.0) (
        All-change_first (λ p. IsStamped p → IsKept c (seq p)) (seq r) (note_ack r) (in_flight q)
          (λ p same _.
            subst (IsKept c)
              (let e : seq r ≡ seq (note_ack r p) = omega (arith, same, note_ack-same r p) in e)
              kept)
          keeps.stamped);
    covered = λ k lo hi. rw (ap (map number_of) same_wires, effect.1) (keeps.covered k lo hi);
  }
