-- ===== src/UdpStream/Session/Tests.antt =====
-- One message, all the way: sent, delivered, acked, settled and read.
use adaptive_transport.Common.{
  ℕ, suc, ◌+◌, ◌*◌, ◌/◌, ◌≤◌, min, ◌≡◌, refl, false, true, some, inl, inr, List, [], ◌∷◌, ◌++◌,
  replicate, length-replicate, arith,
}
use adaptive_transport.Common.Bytes.{replicate-IsBytes}
use adaptive_transport.Packet.{
  Packet, mtu, init, seq, is_ack, wire, set_seq, set_is_ack, set_size, set_ts_sent, copy_payload,
  copy_buf, set_ts_recv, set_ts_ack, set_ts_recv_ack,
}
use adaptive_transport.CircBuff
use adaptive_transport.CircBuff.Refine
use adaptive_transport.PacketQueue
use adaptive_transport.PacketQueue.{front, front_next, modify, tx, slot}
use adaptive_transport.PacketQueue.View.{in_flight, pending}
use adaptive_transport.TokenBucket.{consume}
use adaptive_transport.UdpSocket.{Control, timespec, packet_timestamp}
use adaptive_transport.UdpStream.Send.{Sender, fill, send_packet, send_round, send_loop, send}
use adaptive_transport.UdpStream.Transmit.{Link, hold, send_slot}
use adaptive_transport.UdpStream.Session.{
  Session, new_end, new_session, sender, link, ◌⟶◌, ◌⟶*◌, sends, transmits, arrives, acked, settles,
  start, next,
}
use adaptive_transport.UdpStream.Session.Transmitting.{transmit-eq}
use adaptive_transport.UdpStream.Session.Reliable.{IsMemory, read_prefix, nothing_lost}
use adaptive_transport.Packet.Header
use adaptive_transport.CircBuff.{used}
use adaptive_transport.CircBuff.Refine.{contents}
use adaptive_transport.PacketQueue.{PacketQueue, ended, find, unacked, tx_next, unacked_next}
use adaptive_transport.UdpSocket.Whole.{Same}
use adaptive_transport.UdpStream.Held.{held_bytes}
use adaptive_transport.UdpStream.Receive.Buffer.{Fits}
use adaptive_transport.UdpStream.Send.Fill.{IsData, piece, fill-IsData}
use adaptive_transport.UdpStream.Incoming.{make_ack, note_ack, on_ack, on_data}
use adaptive_transport.UdpStream.Incoming.Ack.{taken_in, taken_in-Same, incoming-ack-eq}
use adaptive_transport.UdpStream.Incoming.Data.{IsAckOf, make_ack-IsAckOf, incoming-data-eq}
use adaptive_transport.UdpStream.Settle.{closed, metadata_of, settle}

abbrev memory : List ℕ
memory = replicate (mtu + 4) 0

abbrev exact : ℕ → ℕ → ℕ → ℕ
exact diff rate burst = min burst (diff * rate / 1000000)

abbrev observe : List ℕ → ℕ → List ℕ
observe seen x = x ∷ seen

abbrev at_start : Session ℕ (List ℕ) ℕ
at_start =
    new_session (new_end 0 (λ _. memory) memory 4096 0) (new_end 0 (λ _. memory) memory 4096 0) []

abbrev message : List ℕ
message = 104 ∷ 105 ∷ []

abbrev packet : Packet
packet = fill message 1 2 (init memory)

abbrev queued : Sender ℕ
queued = record {
  queue =
      front_next suc (modify (record at_start.here.queue { front_used = true }) 0 (λ _. packet));
  dseq = 2;
}

sent_runs : send suc (sender at_start) message ≡ some queued
unfolding send send_loop send_round send_packet front front_next fill copy_payload set_size
    PacketQueue.init
sent_runs = refl

abbrev tries : List (ℕ × ℕ)
tries = (2000000, 1000000) ∷ []

abbrev held : ℕ
held = 1868934

let_through : hold exact 0 6 tries ≡ some held
unfolding hold consume
let_through = refl

memory-IsMemory : IsMemory memory
memory-IsMemory =
    (length-replicate {A = ℕ} (mtu + 4) 0, replicate-IsBytes (mtu + 4) 0 (omega arith))

memory-IsValid : Header.IsValid (init memory)
memory-IsValid = record { full = memory-IsMemory.0; bytes = memory-IsMemory.1 }

ring : Refine.IsValid (CircBuff.init 4096 1024)
ring = Refine.init-IsValid 12 22 4096 1024 refl refl (omega arith)

abbrev s1 : Session ℕ (List ℕ) ℕ
s1 = record at_start {
  here = record at_start.here { queue = queued.queue };
  dseq = queued.dseq;
  text = [] ++ message;
}

abbrev Step : Session ℕ (List ℕ) ℕ → Session ℕ (List ℕ) ℕ → Type 0
Step s t = ◌⟶◌ suc exact observe 0 s t

step1 : Step at_start s1
unfolding PacketQueue.init
step1 = sends at_start message (omega arith) (omega arith) (omega arith) sent_runs (omega arith)

-- The packet goes out at two seconds.
abbrev linked : Link ℕ
linked = send_slot suc 2000000 (link s1) s1.here.queue 0 held

abbrev s2 : Session ℕ (List ℕ) ℕ
s2 = record s1 {
  here = record s1.here { queue = linked.queue };
  ts_last = linked.ts_last;
  datagrams = linked.sent;
}

step2 : Step s1 s2
unfolding PacketQueue.init tx front_next fill copy_payload set_size send_slot set_is_ack set_seq
step2 =
    transmits s1 [] tries 2000000 {i = 0} {ts_last = held} refl let_through (refl, refl)
      (transmit-eq suc exact [] tries 2000000 (link s1) refl let_through)

-- It comes in at the other end a hundred microseconds later.
abbrev out : Packet
out = set_ts_sent packet 2000000

packet-IsData : IsData packet 1 (piece message 2)
packet-IsData = fill-IsData memory-IsValid message 1 2 (omega arith) (omega arith)

out-IsValid : (Header.IsValid out) × (is_ack out ≡ false) × (4 ≤ out.size) × (out.size ≤ mtu + 4)
unfolding set_ts_sent is_ack
out-IsValid = (
  record { full = packet-IsData.valid.full; bytes = packet-IsData.valid.bytes },
  packet-IsData.kind,
  omega (arith, packet-IsData.length_of),
  omega (arith, packet-IsData.length_of, packet-IsData.fits),
)

abbrev there_time : Control
there_time = timespec 2 100000

there_read : packet_timestamp there_time ≡ inr 2000100
unfolding packet_timestamp
there_read = refl

abbrev came_in : Packet
came_in = taken_in (init memory) out 2000100

abbrev s3 : Session ℕ (List ℕ) ℕ
s3 = record s2 { there = on_data s2.there 9 came_in }

room : Fits s2.there.receiver mtu
unfolding CircBuff.init used held_bytes
room = record { valid = ring; room = omega arith }

step3 : Step s2 s3
unfolding send_slot wire set_ts_sent front_next fill
step3 = arrives s2 9 (wire out) there_time (inl refl) room there_read (omega arith) (
    incoming-data-eq 0 9 s2.there out there_time memory-IsValid out-IsValid.0 out-IsValid.1
      out-IsValid.2 out-IsValid.3 there_read)

-- The ack comes back.
abbrev ack : Packet
ack = make_ack came_in

ack-IsAckOf : IsAckOf ack (seq out) 2000100
ack-IsAckOf =
    let same : Same came_in out 2000100 =
      taken_in-Same 2000100 out-IsValid.0 memory-IsValid out-IsValid.2 out-IsValid.3 in
    make_ack-IsAckOf same.valid same.number same.stamped (omega arith)

abbrev here_time : Control
here_time = timespec 2 200000

here_read : packet_timestamp here_time ≡ inr 2000200
unfolding packet_timestamp
here_read = refl

abbrev came_back : Packet
came_back = taken_in (init memory) ack 2000200

found : find s3.here.queue (seq came_back) ≡ ended (some 0)
unfolding PacketQueue.init find send_slot front_next tx_next seq fill set_seq set_is_ack set_size
    copy_payload set_ts_sent set_ts_recv set_ts_recv_ack copy_buf wire
found = refl

abbrev noted : PacketQueue ℕ
noted = modify s3.here.queue 0 (note_ack came_back)

is_noted : on_ack s3.here.queue came_back ≡ noted
unfolding on_ack
is_noted = rw (found, on_ack) refl

abbrev s4 : Session ℕ (List ℕ) ℕ
s4 = record s3 { here = record s3.here { queue = noted; peer = 3; pkt = came_back } }

step4 : Step s3 s4
unfolding on_data wire
step4 = acked s3 3 (wire ack) here_time (inl refl) here_read (
    rw (← is_noted) (
      incoming-ack-eq 0 3 s3.here ack here_time memory-IsValid ack-IsAckOf.valid ack-IsAckOf.kind
        (omega (arith, ack-IsAckOf.long)) (omega (arith, ack-IsAckOf.long)) here_read))

-- It is settled, and the queue is empty.
abbrev s5 : Session ℕ (List ℕ) ℕ
s5 = record s4 {
  here = record s4.here { queue = unacked_next s4.here.queue };
  rtt = 200 ∷ [];
  log = metadata_of (s4.here.queue.buf 0) ∷ [];
}

step5 : Step s4 s5
unfolding PacketQueue.init send_slot front_next tx_next settle in_flight unacked unacked_next closed
    set_ts_sent set_ts_recv set_ts_ack
step5 = settles s4 2000300 50000 (omega arith) ((λ _. omega arith), tt) refl

abbrev run : ◌⟶*◌ suc exact observe 0 at_start s5
run = next (next (next (next (next start step1) step2) step3) step4) step5

-- After the packet has come in.
read_prefix_example :
    (rest : List ℕ) × (s3.text ≡ (s3.taken ++ contents s3.there.receiver.recv_buff) ++ rest)
read_prefix_example =
    read_prefix suc exact observe 0 0 [] 4096 ring (λ _. memory) (λ _. memory) memory memory
      (λ i. memory-IsMemory) memory-IsMemory memory-IsMemory
      (next (next (next start step1) step2) step3)

nothing_lost_example : s5.text ≡ s5.taken ++ contents s5.there.receiver.recv_buff
unfolding PacketQueue.init send_slot front_next tx_next in_flight pending unacked_next
nothing_lost_example =
    nothing_lost suc exact observe 0 0 [] 4096 ring (λ _. memory) (λ _. memory) memory memory
      (λ i. memory-IsMemory) memory-IsMemory memory-IsMemory run refl refl
