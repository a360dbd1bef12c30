-- ===== src/UdpStream/Limiter/Tests.antt =====
-- Three entries that can be read: one is from before the last update, one was received, one was not.
use adaptive_transport.Common.{ℕ, ◌+◌, ◌≡◌, refl, some, if◌then◌else◌, ◌==◌, arith}
use adaptive_transport.Ptt.{Ptt, Entry}
use adaptive_transport.Ptt.View.{IsValid, unread}
use adaptive_transport.UdpStream.Limiter.{no_stats, note_entry}
use adaptive_transport.UdpStream.Limiter.Reading.{noted}

abbrev entry : ℕ → Entry
entry i = record { seq = i; ts_sent = 100 + i; ts_recv = if i == 1 then 130 else 0 }

abbrev ring : Ptt
ring = record { entries = entry; size = 4; next_seq = 4; head0 = 3; head1 = 3; tail = 0 }

ring-IsValid : IsValid ring
ring-IsValid = omega arith

summed : noted 101 (unread ring) no_stats ≡ record { nrecv = 1; ndropped = 1; span = some (29, 29) }
unfolding noted note_entry unread
summed = refl
