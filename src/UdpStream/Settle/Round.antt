-- ===== src/UdpStream/Settle/Round.antt =====
-- One round of the loop on the queue alone: a packet that is only settled, and a packet that is lost and
-- queued again.
use adaptive_transport.Common.{
  ◌+◌, ◌≤◌, ◌≡◌, ◌≢◌, refl, sym, ap, ◌∙◌, Bool, true, false, not, ◌||◌, [], ◌∷◌, ◌++◌, map,
  append-nil, if◌then◌else◌, length, take, arith,
}
use adaptive_transport.Common.Bytes.{take-IsBytes}
use adaptive_transport.Packet.{Packet, mtu, wire, copy_buf, set_size}
use adaptive_transport.Packet.Header
use adaptive_transport.Packet.Payload.{take-overwrite-take, copy_buf-IsValid}
use adaptive_transport.PacketQueue.{PacketQueue, unacked_next}
use adaptive_transport.PacketQueue.View.{in_flight, pending}
use adaptive_transport.PacketQueue.Refine.{unacked_next_refines}
use adaptive_transport.PacketQueue.Invariant.{unacked_next-IsValid}
use adaptive_transport.PacketQueue.Resend.{IsCopyOf, IsReady, Resent, HasRoom-counts}
use adaptive_transport.UdpStream.Settle.{is_set, copy_lost}

-- A closed packet that neither an ack nor its fields report as received.
unfoldable pub is_lost : Packet → Bool
is_lost p = not (is_set p.ts_ack || is_set p.ts_recv)

-- An ack was not stamped before the packet was sent.
abbrev pub IsCausal : Packet → Type 0
IsCausal p = is_set p.ts_ack ≡ true → p.ts_sent ≤ p.ts_ack

-- The copy in the other slot puts the same bytes on the wire.
wire-copy_lost :
    {p f : Packet}
    → Header.IsValid p
    → Header.IsValid f
    → p.size ≤ mtu + 4
    → wire (copy_lost p f) ≡ wire p
unfolding wire copy_lost copy_buf set_size
wire-copy_lost {p} {f} vp vf h =
    take-overwrite-take p.size p.buf f.buf (omega (arith, vp.full)) (omega (arith, vf.full))

copy_lost-IsValid :
    {p f : Packet} → Header.IsValid p → Header.IsValid f → Header.IsValid (copy_lost p f)
unfolding copy_lost set_size
copy_lost-IsValid {p} {f} vp vf =
    let w = copy_buf-IsValid (take p.size p.buf) (take-IsBytes p.size p.buf vp.bytes) vf in
    record { full = w.full; bytes = w.bytes }

size-copy_lost : (p f : Packet) → (copy_lost p f).size ≡ p.size
unfolding copy_lost set_size
size-copy_lost p f = refl

pub copy_lost-IsCopyOf :
    {p : Packet} → Header.IsValid p → p.size ≤ mtu + 4 → IsCopyOf p (copy_lost p)
copy_lost-IsCopyOf {p} v h = record {
  size = size-copy_lost p;
  header = λ f w. copy_lost-IsValid v w;
  bytes = λ f w. wire-copy_lost v w h;
}

module _ {S : Type 0} where
  -- What one round does to the queue, for the oldest packet in flight `p`.
  pub record Round (q q' : PacketQueue S) (p : Packet) : Type 0 where
    pub ready : IsReady q'
    pub settled : in_flight q ≡ p ∷ in_flight q'
    pub waits :
        map wire (pending q') ≡ map wire (pending q) ++ map wire (if is_lost p then p ∷ [] else [])

  -- A packet that is not lost is only settled.
  pub settle-Round :
      {q : PacketQueue S}
      → IsReady q
      → q.unacked_idx ≢ q.tx_idx
      → is_lost (q.buf q.unacked_idx) ≡ false
      → Round q (unacked_next q) (q.buf q.unacked_idx)
  settle-Round {q} r some_sent here = record {
    ready = record {
      valid = unacked_next-IsValid r.valid some_sent;
      free = unfold unacked_next in r.free;
      room =
          HasRoom-counts q (unacked_next q) 1 0 (ground (arith, ap length steps.0))
            (omega (arith, ap length steps.1)) (omega arith) (unfold unacked_next in refl) r.room;
      slots = unfold unacked_next in r.slots;
      fits = unfold unacked_next in r.fits;
    };
    settled = steps.0;
    waits = rw here (ap (map wire) steps.1 ∙ sym (append-nil (map wire (pending q))));
  }
    where
      steps :
          (in_flight q ≡ q.buf q.unacked_idx ∷ in_flight (unacked_next q))
          × (pending (unacked_next q) ≡ pending q)
      steps = unacked_next_refines r.valid.ordered some_sent

  -- A lost packet is queued again, and then settled.
  pub resend-Round :
      {q q' : PacketQueue S} {p : Packet} → is_lost p ≡ true → Resent q q' p → Round q q' p
  resend-Round here again = record {
    ready = again.ready;
    settled = again.settled;
    waits = rw here again.waits;
  }
