-- ===== src/UdpStream/Send/Round.antt =====
-- One round of `send`.
use adaptive_transport.Common.{
  ℕ, ◌+◌, ◌-◌, ◌%◌, ◌^◌, ◌≤◌, ◌<◌, min, ◌≡◌, refl, sym, ap, ◌∙◌, false, inl, inr, Bool-cases, some,
  List, [], ◌∷◌, ◌++◌, append_assoc, ◌==◌, length, drop, length-append, length-drop,
  take-append-drop, drop-drop, arith,
}
use adaptive_transport.Common.Bytes.{IsBytes, take-IsBytes, drop-IsBytes}
use adaptive_transport.Packet.{Packet, mtu}
use adaptive_transport.Packet.Header
use adaptive_transport.PacketQueue.{PacketQueue, modify, front_next}
use adaptive_transport.PacketQueue.View.{
  in_flight_count, pending_count, in_flight, pending, length-in_flight, length-pending,
}
use adaptive_transport.PacketQueue.Enqueue.{
  held_front, front-free, enqueue, enqueue-IsValid, enqueue_refines,
}
use adaptive_transport.UdpStream.Send.{Sender, fill, send_packet, send_round}
use adaptive_transport.UdpStream.Send.Fill.{IsData, piece, length-piece, size-fill, fill-IsData}
use adaptive_transport.UdpStream.Send.Queued.{IsReady, Sent}

module _ {S : Type 0} (signal : S → S) (msg : List ℕ) (bytes : IsBytes msg) where
  -- The sender after a round that has sent the piece at `remaining`.
  pub after : Sender S → ℕ → Sender S
  after s remaining = record {
    queue = enqueue signal s.queue (fill msg s.dseq remaining);
    dseq = (s.dseq + 1) % 2 ^ 32;
  }

  pub small : (dseq remaining : ℕ) (p : Packet) → (fill msg dseq remaining p).size ≤ 65535
  small dseq remaining p = omega (arith, size-fill msg dseq remaining p)

  pub send_round-eq :
      (s : Sender S) (remaining : ℕ)
      → s.queue.front_used ≡ false
      → send_round signal msg s remaining ≡ some (after s remaining, remaining - min remaining mtu)
  unfolding send_round after
  send_round-eq s remaining free =
      ap (send_packet signal msg s remaining) (front-free s.queue free)
      ∙ ap (λ (n : ℕ). some (after s remaining, n)) written
    where
      q2 : PacketQueue S
      q2 = modify (held_front s.queue) s.queue.front_idx (fill msg s.dseq remaining)

      written : remaining - ((q2.buf s.queue.front_idx).size - 4) ≡ remaining - min remaining mtu
      written = ground (arith, size-fill msg s.dseq remaining (s.queue.buf s.queue.front_idx))

  -- One round from a ready sender with room.
  module _ {s : Sender S} (r : IsReady s) (remaining : ℕ) (le : remaining ≤ length msg)
      (room : in_flight_count s.queue + pending_count s.queue + 1 < s.queue.size) where
    filling : Packet → Packet
    filling = fill msg s.dseq remaining

    pub packet : Packet
    packet = filling (s.queue.buf s.queue.front_idx)

    packet-IsData : IsData packet s.dseq (piece msg remaining)
    unfolding packet filling
    packet-IsData =
        fill-IsData (r.slots s.queue.front_idx) msg s.dseq remaining
          (take-IsBytes (min remaining mtu) _ (drop-IsBytes (length msg - remaining) msg bytes)) le

    after-waits : pending (after s remaining).queue ≡ pending s.queue ++ packet ∷ []
    unfolding after packet filling
    after-waits =
        (enqueue_refines signal (fill msg s.dseq remaining) (small s.dseq remaining) r.valid room).0

    after-flies : in_flight (after s remaining).queue ≡ in_flight s.queue
    unfolding after
    after-flies =
        (enqueue_refines signal (fill msg s.dseq remaining) (small s.dseq remaining) r.valid room).1

    after-slots : (i : ℕ) → Header.IsValid ((after s remaining).queue.buf i)
    unfolding after packet filling front_next
    after-slots i = elim (Bool-cases (i == s.queue.front_idx)) [
      | inl here ↦ rw here (packet-IsData.valid)
      | inr other ↦ rw other (r.slots i)
    ]

    pub after-IsReady : IsReady (after s remaining)
    after-IsReady = record {
      valid =
          unfold after in
          enqueue-IsValid signal (fill msg s.dseq remaining) (small s.dseq remaining) r.valid room;
      free =
          unfold after in
          (enqueue_refines signal (fill msg s.dseq remaining) (small s.dseq remaining) r.valid
            room).2;
      slots = after-slots;
      wraps = unfold after in omega arith;
    }

    after-fits :
        ((i : ℕ) → (s.queue.buf i).size ≤ mtu + 4)
        → (i : ℕ) → ((after s remaining).queue.buf i).size ≤ mtu + 4
    unfolding after front_next
    after-fits fits i = elim (Bool-cases (i == s.queue.front_idx)) [
      | inl here ↦
          rw here (omega (arith, size-fill msg s.dseq remaining (s.queue.buf s.queue.front_idx)))
      | inr other ↦ rw other (fits i)
    ]

    -- One more packet waits, and the ring is as large as before.
    pub after-counts :
        (pending_count (after s remaining).queue ≡ pending_count s.queue + 1)
        × (in_flight_count (after s remaining).queue ≡ in_flight_count s.queue)
        × ((after s remaining).queue.size ≡ s.queue.size)
    after-counts = (
      omega (
        arith,
        length-pending (after s remaining).queue,
        length-pending s.queue,
        ap length after-waits,
        length-append (pending s.queue) (packet ∷ []),
      ),
      omega (
        arith,
        length-in_flight (after s remaining).queue,
        length-in_flight s.queue,
        ap length after-flies,
      ),
      unfold after front_next in refl,
    )

    left : List ℕ
    left = drop (length msg - remaining) msg

    left-piece :
        left ≡ piece msg remaining ++ drop (length msg - (remaining - min remaining mtu)) msg
    unfolding left
    left-piece =
        sym (take-append-drop (min remaining mtu) left)
        ∙ ap (λ (xs : List ℕ). piece msg remaining ++ xs)
            (drop-drop (length msg - remaining) (min remaining mtu) msg
              ∙ ap (λ (k : ℕ). drop k msg)
                  (let e : length msg - remaining + min remaining mtu
                        ≡ length msg - (remaining - min remaining mtu) =
                      omega arith in
                    e))

    -- The packet of this round, then what the later rounds send.
    pub Sent-cons :
        {s' : Sender S} {ps : List Packet}
        → Sent (after s remaining) s' (drop (length msg - (remaining - min remaining mtu)) msg) ps
        → Sent s s' (drop (length msg - remaining) msg) (packet ∷ ps)
    unfolding left after
    Sent-cons {ps} sent = record {
      ready = sent.ready;
      waits =
          sent.waits
          ∙ ap (λ (qs : List Packet). qs ++ ps) after-waits
          ∙ append_assoc (pending s.queue) (packet ∷ []) ps;
      flies = sent.flies ∙ after-flies;
      cut = (
        piece msg remaining,
        drop (length msg - (remaining - min remaining mtu)) msg,
        left-piece,
        omega (arith, length-piece msg remaining le, length-drop (length msg - remaining) msg),
        packet-IsData,
        sent.cut,
      );
      next = omega (arith, sent.next);
      fits = λ fits i. sent.fits (after-fits fits) i;
    }
