-- ===== src/UdpStream/Settle/Effect.antt =====
-- What the loop as a whole does to the stream, in terms of the packets that were in flight.
use mathlib.Core.List.{map-append}
use adaptive_transport.Common.{
  ℕ, ◌-◌, ◌≡◌, refl, sym, ap, ◌∙◌, true, false, List, [], ◌∷◌, ◌++◌, map, append-nil, append_assoc,
  if◌then◌else◌, arith,
}
use adaptive_transport.Packet.{Packet, wire}
use adaptive_transport.PacketQueue.View.{in_flight, pending}
use adaptive_transport.UdpStream.Settle.{Stream, Metadata, is_set, closed, metadata_of}
use adaptive_transport.PacketQueue.Resend.{IsReady}
use adaptive_transport.UdpStream.Settle.Round.{is_lost}

-- The closed packets before the first open one, and the packets from that one on.
unfoldable pub closed_prefix : ℕ → ℕ → List Packet → List Packet
closed_prefix now timeout [] = []
closed_prefix now timeout (p ∷ ps) =
    if closed now timeout p then p ∷ closed_prefix now timeout ps else []

unfoldable pub still_open : ℕ → ℕ → List Packet → List Packet
still_open now timeout [] = []
still_open now timeout (p ∷ ps) = if closed now timeout p then still_open now timeout ps else p ∷ ps

unfoldable pub only_lost : List Packet → List Packet
only_lost [] = []
only_lost (p ∷ ps) = if is_lost p then p ∷ only_lost ps else only_lost ps

only_lost-cons :
    (p : Packet) (ps : List Packet)
    → only_lost (p ∷ ps) ≡ (if is_lost p then p ∷ [] else []) ++ only_lost ps
unfolding only_lost
only_lost-cons p ps = ground arith

-- The statistics after the acked ones of some packets, oldest first.
unfoldable pub measure : {R : Type 0} → (R → ℕ → R) → R → Packet → R
measure observe rtt p = if is_set p.ts_ack then observe rtt (p.ts_ack - p.ts_sent) else rtt

unfoldable pub measure_all : {R : Type 0} → (R → ℕ → R) → R → List Packet → R
measure_all observe rtt [] = rtt
measure_all observe rtt (p ∷ ps) = measure_all observe (measure observe rtt p) ps

module _ {S R : Type 0} (observe : R → ℕ → R) (now timeout : ℕ) where
  -- What the whole loop does, for the packets `flying` that were in flight.
  pub record Settled (s s' : Stream S R) (flying : List Packet) : Type 0 where
    pub ready : IsReady s'.queue
    pub flies : in_flight s'.queue ≡ still_open now timeout flying
    pub waits :
        map wire (pending s'.queue)
        ≡ map wire (pending s.queue) ++ map wire (only_lost (closed_prefix now timeout flying))
    pub logged : s'.log ≡ s.log ++ map metadata_of (closed_prefix now timeout flying)
    pub measured : s'.rtt ≡ measure_all observe s.rtt (closed_prefix now timeout flying)

  -- Nothing to settle.
  pub Settled-nil : (s : Stream S R) → IsReady s.queue → in_flight s.queue ≡ [] → Settled s s []
  unfolding still_open closed_prefix only_lost measure_all
  Settled-nil s r none_fly = record {
    ready = r;
    flies = none_fly;
    waits = sym (append-nil (map wire (pending s.queue)));
    logged = sym (append-nil s.log);
    measured = refl;
  }

  pub Settled-open :
      (s : Stream S R) (p : Packet) (ps : List Packet)
      → IsReady s.queue
      → in_flight s.queue ≡ p ∷ ps
      → closed now timeout p ≡ false
      → Settled s s (p ∷ ps)
  unfolding still_open closed_prefix only_lost measure_all
  Settled-open s p ps r flying young = record {
    ready = r;
    flies = rw young flying;
    waits = rw young (sym (append-nil (map wire (pending s.queue))));
    logged = rw young (sym (append-nil s.log));
    measured = rw young refl;
  }

  -- One round, then the rest of the loop.
  pub Settled-cons :
      {s s1 s' : Stream S R} (p : Packet) (ps : List Packet)
      → closed now timeout p ≡ true
      → map wire (pending s1.queue)
        ≡ map wire (pending s.queue) ++ map wire (if is_lost p then p ∷ [] else [])
      → s1.log ≡ s.log ++ metadata_of p ∷ []
      → s1.rtt ≡ measure observe s.rtt p
      → Settled s1 s' ps
      → Settled s s' (p ∷ ps)
  unfolding still_open closed_prefix measure_all
  Settled-cons {s} p ps old waits1 logged1 measured1 rest = record {
    ready = rest.ready;
    flies = rw old rest.flies;
    waits = rw old (
        rest.waits
        ∙ ap (λ (ws : List (List ℕ)). ws ++ map wire (only_lost gone)) waits1
        ∙ append_assoc (map wire (pending s.queue)) (map wire (if is_lost p then p ∷ [] else []))
            (map wire (only_lost gone))
        ∙ ap (λ (ws : List (List ℕ)). map wire (pending s.queue) ++ ws)
            (sym (map-append wire (if is_lost p then p ∷ [] else []) (only_lost gone))
              ∙ ap (map wire) (sym (only_lost-cons p gone))));
    logged = rw old (
        rest.logged
        ∙ ap (λ (ms : List Metadata). ms ++ map metadata_of gone) logged1
        ∙ append_assoc s.log (metadata_of p ∷ []) (map metadata_of gone));
    measured = rw old (rest.measured ∙ ap (λ (r : R). measure_all observe r gone) measured1);
  }
    where
      gone : List Packet
      gone = closed_prefix now timeout ps
