-- ===== src/UdpStream/Settle/Tests.antt =====
-- The loop at a ring of four slots, with one packet in flight that is too old and one that waits, and at
-- a ring whose packet in flight is in a slot that was acked before.
use adaptive_transport.Common.{
  map, ℕ, suc, ap, ◌∙◌, Option, some, length, ◌+◌, ◌≡◌, refl, false, List, [], ◌∷◌, replicate,
  length-replicate, arith,
}
use adaptive_transport.Common.Bytes.{replicate-IsBytes}
use adaptive_transport.Packet.{Packet, mtu, set_ts_sent}
use adaptive_transport.PacketQueue.{PacketQueue}
use adaptive_transport.PacketQueue.View.{in_flight, pending, InOrder}
use adaptive_transport.UdpStream.Send.{fill}
use adaptive_transport.UdpStream.Settle.{closed, Stream, aborted, impossible, ok, settle}
use adaptive_transport.PacketQueue.Resend.{IsReady}
use adaptive_transport.UdpStream.Settle.Effect.{closed_prefix, Settled}
use adaptive_transport.UdpStream.Settle.Progress.{settle_lem}
use adaptive_transport.Common.Number.{whole, whole-IsExact}
use adaptive_transport.RollingStats.{RollingStats, set_size, note_all}
use adaptive_transport.RollingStats.Window.{StatsOf, IsCountable}
use adaptive_transport.RollingStats.Multiset.{sum}
use adaptive_transport.UdpStream.Settle.Rtt.{rtt_size, observe_rtt, samples, settle-StatsOf}
use adaptive_transport.UdpStream.Settle.Stale.{reuse-aborts}

-- Ten bytes, sent at time 5.
abbrev pub sent : Packet
sent = record { buf = replicate (mtu + 4) 0; size = 10; ts_sent = 5; ts_recv = 0; ts_ack = 0 }

abbrev pub ring : (ℕ → Packet) → PacketQueue ℕ
ring slots = record {
  front_idx = 1;
  front_used = false;
  tx_idx = 0;
  unacked_idx = 3;
  size = 4;
  bytes_queued = 10;
  buf = slots;
  front_sema = 0;
  tx_sema = 0;
}

-- `rtt` as the list of what it was given.
abbrev stream : (ℕ → Packet) → Stream ℕ (List ℕ)
stream slots = record { queue = ring slots; rtt = []; log = [] }

abbrev observe : List ℕ → ℕ → List ℕ
observe seen x = x ∷ seen

pub lossy-IsReady : IsReady (stream (λ _. sent)).queue
unfolding pending
lossy-IsReady = record {
  valid = record {
    ordered = omega arith;
    few = omega arith;
    sizes = λ i. omega arith;
    queued = refl;
  };
  free = refl;
  room = omega arith;
  slots = λ i. record {
    full = length-replicate {A = ℕ} (mtu + 4) 0;
    bytes = replicate-IsBytes (mtu + 4) 0 (omega arith);
  };
  fits = λ i. omega arith;
}

settle_lem_example :
    (s' : Stream ℕ (List ℕ)) × (settle suc observe 4 100 50 (stream (λ _. sent)) ≡ ok s')
    × Settled observe 100 50 (stream (λ _. sent)) s' (in_flight (ring (λ _. sent)))
settle_lem_example =
    settle_lem suc observe 100 50 (stream (λ _. sent)) lossy-IsReady
      (unfold in_flight in ((λ acked. absurd (ground (arith, acked))), tt))

-- Acked at time 60 and then used again at time 1000.
abbrev acked : Packet
acked = record { buf = replicate (mtu + 4) 0; size = 10; ts_sent = 5; ts_recv = 0; ts_ack = 60 }

abbrev reused : Packet
reused = set_ts_sent (fill (7 ∷ []) 9 1 acked) 1000

reused-InOrder : InOrder (ring (λ _. reused))
reused-InOrder = omega arith

reuse-aborts_example : settle suc observe 4 1001 50 (stream (λ _. reused)) ≡ aborted impossible
reuse-aborts_example =
    reuse-aborts suc observe 3 1001 50 (stream (λ _. reused)) (7 ∷ []) 9 1 1000 acked {ps = []}
      reused-InOrder (unfold in_flight in refl) (omega arith) (omega arith)

timed-IsReady :
    (slot : Packet) → slot.buf ≡ replicate (mtu + 4) 0 → slot.size ≡ 10 → IsReady (ring (λ _. slot))
unfolding pending
timed-IsReady slot e size = record {
  valid = record {
    ordered = omega arith;
    few = omega arith;
    sizes = λ i. omega (arith, size);
    queued = omega (arith, size);
  };
  free = refl;
  room = omega arith;
  slots = λ i. record {
    full = ap (λ (b : List ℕ). length b) e ∙ length-replicate {A = ℕ} (mtu + 4) 0;
    bytes = rw e (replicate-IsBytes (mtu + 4) 0 (omega arith));
  };
  fits = λ i. omega (arith, size);
}

-- Statistics of whole numbers, which have noted 40.
abbrev fresh_rtt : RollingStats ℕ
fresh_rtt = record {
  window = record { head = 0; count = 0; size = 0; buf = λ _. 0 };
  total = 0;
  mean = 0;
  variance = 0;
  max = 0;
  min = 0;
  sorted = [];
}

abbrev measured : Stream ℕ (Option (RollingStats ℕ))
measured = record {
  queue = ring (λ _. acked);
  rtt = note_all whole (set_size whole fresh_rtt rtt_size) (map whole.of_int (40 ∷ []));
  log = [];
}

measured-IsCountable :
    IsCountable (samples (40 ∷ []) (closed_prefix 100 50 (in_flight (ring (λ _. acked)))))
unfolding samples closed_prefix in_flight sum closed
measured-IsCountable = record { few = omega arith; summed = omega arith }

settle-StatsOf_example :
    (s' : Stream ℕ (Option (RollingStats ℕ))) × (rtt' : RollingStats ℕ) × (settle suc
        (observe_rtt whole)
        4
        100
        50
        measured
      ≡ ok s')
    × (s'.rtt ≡ some rtt')
    × StatsOf whole-IsExact rtt' fresh_rtt.window rtt_size
        (samples (40 ∷ []) (closed_prefix 100 50 (in_flight (ring (λ _. acked)))))
settle-StatsOf_example =
    settle-StatsOf suc whole-IsExact 100 50 measured fresh_rtt (40 ∷ [])
      (timed-IsReady acked refl refl) (unfold in_flight in ((λ h. omega arith), tt)) refl refl
      measured-IsCountable
