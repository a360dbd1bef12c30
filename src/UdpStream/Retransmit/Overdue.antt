-- ===== src/UdpStream/Retransmit/Overdue.antt =====
-- The packets that are overdue, and what sending them again does to the queue.
use adaptive_transport.Common.{
  ℕ, ◌<◌, ◌≡◌, refl, sym, ap, ◌∙◌, Bool, true, false, not, ◌&&◌, List, [], ◌∷◌, ◌++◌, map,
  append-nil, append_assoc, ◌==◌, ltb, if◌then◌else◌, length, arith,
}
use adaptive_transport.Packet.{Packet, wire}
use adaptive_transport.PacketQueue.{PacketQueue}
use adaptive_transport.PacketQueue.View.{in_flight, pending}
use adaptive_transport.PacketQueue.Resend.{IsReady}

-- Sent no later than `ts`, and not reported as received.
unfoldable pub is_overdue : ℕ → Packet → Bool
is_overdue ts p = p.ts_recv == 0 && not (ltb ts p.ts_sent)

-- The overdue packets before the first other one, and the packets from that one on.
unfoldable pub overdue_prefix : ℕ → List Packet → List Packet
overdue_prefix ts [] = []
overdue_prefix ts (p ∷ ps) = if is_overdue ts p then p ∷ overdue_prefix ts ps else []

unfoldable pub others : ℕ → List Packet → List Packet
others ts [] = []
others ts (p ∷ ps) = if is_overdue ts p then others ts ps else p ∷ ps

abbrev pub first_overdue : ℕ → List Packet → Bool
first_overdue ts [] = false
first_overdue ts (p ∷ ps) = is_overdue ts p

pub overdue_prefix-none :
    (ts : ℕ) (ps : List Packet) → first_overdue ts ps ≡ false → overdue_prefix ts ps ≡ []
unfolding overdue_prefix
overdue_prefix-none ts [] h = refl
overdue_prefix-none ts (p ∷ ps) h = rw h refl

pub others-none : (ts : ℕ) (ps : List Packet) → first_overdue ts ps ≡ false → others ts ps ≡ ps
unfolding others
others-none ts [] h = refl
others-none ts (p ∷ ps) h = rw h refl

pub overdue_prefix-some :
    (ts : ℕ) (ps : List Packet) → first_overdue ts ps ≡ true → 0 < length (overdue_prefix ts ps)
unfolding overdue_prefix
overdue_prefix-some ts [] h = absurd (ground arith)
overdue_prefix-some ts (p ∷ ps) h = rw h (omega arith)

module _ {S : Type 0} (ts : ℕ) where
  -- What `retransmit` does to the queue.
  pub record Retransmitted (q q' : PacketQueue S) (flying : List Packet) : Type 0 where
    pub ready : IsReady q'
    pub flies : in_flight q' ≡ others ts flying
    pub waits : map wire (pending q') ≡ map wire (pending q) ++ map wire (overdue_prefix ts flying)

  -- Nothing to send again.
  pub Retransmitted-none :
      (q : PacketQueue S) (flying : List Packet)
      → IsReady q
      → in_flight q ≡ flying
      → first_overdue ts flying ≡ false
      → Retransmitted q q flying
  Retransmitted-none q flying r e h = record {
    ready = r;
    flies = e ∙ sym (others-none ts flying h);
    waits =
        sym (append-nil (map wire (pending q)))
        ∙ ap (λ (ps : List Packet). map wire (pending q) ++ map wire ps)
            (sym (overdue_prefix-none ts flying h));
  }

  -- One packet, then the rest.
  pub Retransmitted-cons :
      {q q1 q' : PacketQueue S} {p : Packet} {ps : List Packet}
      → is_overdue ts p ≡ true
      → map wire (pending q1) ≡ map wire (pending q) ++ wire p ∷ []
      → Retransmitted q1 q' ps
      → Retransmitted q q' (p ∷ ps)
  unfolding overdue_prefix others
  Retransmitted-cons {q} {p = p} {ps} due waits1 h = record {
    ready = h.ready;
    flies = rw due h.flies;
    waits = rw due (
        h.waits
        ∙ ap (λ (ws : List (List ℕ)). ws ++ map wire (overdue_prefix ts ps)) waits1
        ∙ append_assoc (map wire (pending q)) (wire p ∷ []) (map wire (overdue_prefix ts ps)));
  }
