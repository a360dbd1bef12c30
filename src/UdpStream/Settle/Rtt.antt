-- ===== src/UdpStream/Settle/Rtt.antt =====
-- The settling loop with the statistics of src/RollingStats.cpp: `rtt.size (64)`, and `rtt` called by
-- `onMetadata`.
use adaptive_transport.Common.{
  ℕ, ◌-◌, ◌≡◌, refl, ap, ◌∙◌, inl, inr, Bool-cases, Option, none, some, List, [], ◌∷◌, map,
  if◌then◌else◌, arith,
}
use adaptive_transport.Common.Bytes.{All}
use adaptive_transport.Common.Number.{Number, IsExact}
use adaptive_transport.Packet.{Packet}
use adaptive_transport.PacketQueue.View.{in_flight}
use adaptive_transport.PacketQueue.Resend.{IsReady}
use adaptive_transport.RollingStats.{RollingStats, set_size, note, note_all}
use adaptive_transport.RollingStats.Window.{StatsOf, IsCountable, note_all-StatsOf}
use adaptive_transport.UdpStream.Settle.{Stream, ok, is_set, settle}
use adaptive_transport.UdpStream.Settle.Round.{IsCausal}
use adaptive_transport.UdpStream.Settle.Effect.{closed_prefix, measure, measure_all}
use adaptive_transport.UdpStream.Settle.Progress.{settle_lem}

-- `rtt.size (64)`.
abbrev pub rtt_size : ℕ
rtt_size = 64

-- The round-trip times of the acked ones of some packets, newest first, in front of a series.
unfoldable pub samples : List ℕ → List Packet → List ℕ
samples vs [] = vs
samples vs (p ∷ ps) = samples (if is_set p.ts_ack then (p.ts_ack - p.ts_sent) ∷ vs else vs) ps

module _ {W : Type 0} (n : Number W) where
  -- `rtt (tsAck - tsSent)`.
  abbrev pub observe_rtt : Option (RollingStats W) → ℕ → Option (RollingStats W)
  observe_rtt rtt diff = elim rtt [ none ↦ none | some s ↦ note n s (n.of_int diff) ]

  measure_all-samples :
      (s0 : RollingStats W) (vs : List ℕ) (ps : List Packet)
      → measure_all observe_rtt (note_all n s0 (map n.of_int vs)) ps
        ≡ note_all n s0 (map n.of_int (samples vs ps))
  unfolding measure_all measure samples note_all
  measure_all-samples s0 vs [] = refl
  measure_all-samples s0 vs (p ∷ ps) = elim (Bool-cases (is_set p.ts_ack)) [
    | inl acked ↦ rw acked (measure_all-samples s0 ((p.ts_ack - p.ts_sent) ∷ vs) ps)
    | inr other ↦ rw other (measure_all-samples s0 vs ps)
  ]

-- For a queue in order, with its front slot free and room for one more packet, acks stamped no earlier
-- than the packets were sent, statistics that have noted a series of whole numbers since their size
-- was set to 64, at a total of 0, and a `double` that adds, subtracts and compares whole numbers up to
-- 2^53 exactly: if the series and the round-trip times of the packets settled as acked are together
-- fewer than 2^31 and add up to at most 2^53, the loop ends, and the window, the total, the mean and
-- the multiset are those of the last 64 of them.
pub settle-StatsOf :
    {S W : Type 0} (signal : S → S) {n : Number W} (exact : IsExact n) (now timeout : ℕ)
    → (s : Stream S (Option (RollingStats W))) (s0 : RollingStats W) (vs : List ℕ) → IsReady s.queue
    → All IsCausal (in_flight s.queue)
    → s0.total ≡ n.of_int 0
    → s.rtt ≡ note_all n (set_size n s0 rtt_size) (map n.of_int vs)
    → IsCountable (samples vs (closed_prefix now timeout (in_flight s.queue)))
    → (s' : Stream S (Option (RollingStats W))) × (rtt' : RollingStats W) × (settle signal
          (observe_rtt n)
          s.queue.size
          now
          timeout
          s
        ≡ ok s')
      × (s'.rtt ≡ some rtt')
      × StatsOf exact rtt' s0.window rtt_size
          (samples vs (closed_prefix now timeout (in_flight s.queue)))
settle-StatsOf {W = W} signal {n} exact now timeout s s0 vs ready causal zeroed e count =
    let gone = closed_prefix now timeout (in_flight s.queue) in
    let (s', runs, settled) = settle_lem signal (observe_rtt n) now timeout s ready causal in
    let (rtt', noted, stats) =
      note_all-StatsOf exact s0 rtt_size (samples vs gone) (omega arith) count zeroed in
    (
      s',
      rtt',
      runs,
      settled.measured
          ∙ ap (λ (r : Option (RollingStats W)). measure_all (observe_rtt n) r gone) e
          ∙ measure_all-samples n (set_size n s0 rtt_size) vs gone
          ∙ noted,
      stats,
    )
