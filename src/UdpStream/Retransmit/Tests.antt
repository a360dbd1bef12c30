-- ===== src/UdpStream/Retransmit/Tests.antt =====
-- A ring of four slots, with one packet in flight that is overdue and one that waits.
use adaptive_transport.Common.{ℕ, suc, ◌-◌, ◌≡◌, refl, [], length}
use adaptive_transport.Common.Number.{whole}
use adaptive_transport.PacketQueue.{PacketQueue}
use adaptive_transport.PacketQueue.View.{in_flight}
use adaptive_transport.RollingStats.{RollingStats, populated}
use adaptive_transport.UdpStream.Settle.{ok, sub_u64}
use adaptive_transport.UdpStream.Settle.Tests.{ring, sent, lossy-IsReady}
use adaptive_transport.UdpStream.Retransmit.{retransmit_timeout, retransmit}
use adaptive_transport.UdpStream.Retransmit.Overdue.{is_overdue, overdue_prefix, Retransmitted}
use adaptive_transport.UdpStream.Retransmit.Progress.{retransmit_lem}

-- Full, with a mean of 30 ms.
abbrev rtt : RollingStats ℕ
rtt = record {
  window = record { head = 0; count = 9; size = 9; buf = λ _. 30000 };
  total = 270000;
  mean = 30000;
  variance = 0;
  max = 30000;
  min = 30000;
  sorted = [];
}

overdue_one :
    length (
      overdue_prefix
        (sub_u64 1000000 (retransmit_timeout whole (λ k. k) rtt))
        (in_flight (ring (λ _. sent))))
    ≡ 1
unfolding overdue_prefix is_overdue in_flight retransmit_timeout populated
overdue_one = refl

retransmit_lem_example :
    (let ts = sub_u64 1000000 (retransmit_timeout whole (λ k. k) rtt) in
      (q' : PacketQueue ℕ) × (retransmit suc whole (λ k. k) rtt 1000000 (ring (λ _. sent))
        ≡ ok (length (overdue_prefix ts (in_flight (ring (λ _. sent)))) - 1, q'))
      × Retransmitted ts (ring (λ _. sent)) q' (in_flight (ring (λ _. sent))))
retransmit_lem_example =
    retransmit_lem suc whole (λ k. k) rtt 1000000 (ring (λ _. sent)) lossy-IsReady
