-- ===== src/UdpStream/Session.antt =====
-- A stream between its two ends and the network: what the threads of `UDPStream` do at either end, one
-- round or call at a time, in every order, over a network that loses, repeats and reorders datagrams.
pub mod Datagram
pub mod Invariant
mod Sending
mod Transmitting
mod Acking
mod Settling
mod Ahead
mod Arriving
mod Reading
mod Steps
mod Tests
pub mod Reliable
use adaptive_transport.Common.{
  ℕ, ◌+◌, ◌^◌, ◌≤◌, ◌<◌, ◌≡◌, false, some, List, [], ◌++◌, map, inr, length,
}
use adaptive_transport.Common.Bytes.{All, IsBytes}
use adaptive_transport.Packet
use adaptive_transport.Packet.{Packet, mtu}
use adaptive_transport.CircBuff
use adaptive_transport.CircBuff.{rptr_advance, used, read_bytes}
use adaptive_transport.PacketQueue
use adaptive_transport.PacketQueue.{PacketQueue, Wake, tx, slot}
use adaptive_transport.PacketQueue.View.{in_flight_count, pending_count, in_flight}
use adaptive_transport.PacketQueue.Refine.{HasRoom}
use adaptive_transport.UdpSocket.{Control, packet_timestamp, received}
use adaptive_transport.UdpStream.Send.{Sender, send}
use adaptive_transport.UdpStream.Send.Queued.{packets}
use adaptive_transport.UdpStream.Receive
use adaptive_transport.UdpStream.Receive.Buffer.{Fits}
use adaptive_transport.UdpStream.Incoming.{Endpoint, incoming}
use adaptive_transport.UdpStream.Transmit.{Link, hold, transmit}
use adaptive_transport.UdpStream.Settle.{Stream, Metadata, ok, settle}
use adaptive_transport.UdpStream.Settle.Round.{IsCausal}
use adaptive_transport.UdpStream.Session.Datagram.{OneOf}

-- `here` sends and `there` receives. Beside the fields of `here`: the number of its next packet, the
-- bucket's time, the statistics, what its callback was given, and the datagrams that its sender's
-- thread has sent. `text` is what `send` has been given in all, and `taken` what the reader at `there`
-- has taken out of the buffer.
pub record Session (S R A : Type 0) : Type 0 where
  pub here : Endpoint S A
  pub dseq : ℕ
  pub ts_last : ℕ
  pub rtt : R
  pub log : List Metadata
  pub datagrams : List (List ℕ)
  pub there : Endpoint S A
  pub text : List ℕ
  pub taken : List ℕ

-- The packet's slot has no stamps of a packet that it held before.
abbrev pub IsUnstamped : Packet → Type 0
IsUnstamped p = (p.ts_recv ≡ 0) × (p.ts_ack ≡ 0)

module _ {S A : Type 0} where
  -- One end as `UDPStream::UDPStream` sets it, over memory of any content.
  abbrev pub new_end : S → (ℕ → List ℕ) → List ℕ → (page_size : ℕ) → A → Endpoint S A
  new_end idle cells buf page_size no_address = record {
    queue = PacketQueue.init idle (λ i. Packet.init (cells i));
    receiver = Receive.start (CircBuff.init page_size 1024);
    peer = no_address;
    pkt = Packet.init buf;
    sent = [];
  }

module _ {S R A : Type 0} where
  -- The fields of the sending end that `send`, a round of `senderEntry` and the settling loop use.
  abbrev pub sender : Session S R A → Sender S
  sender s = record { queue = s.here.queue; dseq = s.dseq }

  abbrev pub link : Session S R A → Link S
  link s = record { queue = s.here.queue; ts_last = s.ts_last; sent = s.datagrams }

  abbrev pub stream : Session S R A → Stream S R
  stream s = record { queue = s.here.queue; rtt = s.rtt; log = s.log }

  -- Nothing is sent yet.
  abbrev pub new_session : Endpoint S A → Endpoint S A → R → Session S R A
  new_session here there rtt = record {
    here = here;
    dseq = 1;
    ts_last = 0;
    rtt = rtt;
    log = [];
    datagrams = [];
    there = there;
    text = [];
    taken = [];
  }

  module _ (signal : S → S) (credit : ℕ → ℕ → ℕ → ℕ) (observe : R → ℕ → R) (no_address : A) where
    -- `sends`: a message that fits the queue, while the numbers last. `transmits`: a packet that waits goes
    -- out, from a slot that has not been acked before. `arrives`: a datagram that `here` has sent comes in
    -- whole at `there`, with room for its payload. `acked`: a datagram that `there` has sent in return comes
    -- in whole at `here`. `settles`: the settling loop, with room for a packet, where no ack was stamped
    -- before its packet. `reads`: the reader takes bytes that are there.
    infix 40 ◌⟶◌
    pub data ◌⟶◌ : Session S R A → Session S R A → Type 0 where
      sends :
          (s : Session S R A) (msg : List ℕ) {to : Sender S}
          → IsBytes msg
          → length msg < 2 ^ 32
          → in_flight_count s.here.queue + pending_count s.here.queue + packets (length msg)
            < s.here.queue.size
          → send signal (sender s) msg ≡ some to
          → to.dseq ≤ 2 ^ 31
          → s ⟶ record s {
            here = record s.here { queue = to.queue };
            dseq = to.dseq;
            text = s.text ++ msg;
          }
      transmits :
          (s : Session S R A) (wakes : List (Wake S)) (tries : List (ℕ × ℕ)) (now : ℕ)
          {i ts_last : ℕ} {to : Link S}
          → tx s.here.queue wakes ≡ slot i s.here.queue
          → hold credit s.ts_last (s.here.queue.buf i).size tries ≡ some ts_last
          → IsUnstamped (s.here.queue.buf i)
          → transmit credit signal wakes tries now (link s) ≡ some to
          → s ⟶ record s {
            here = record s.here { queue = to.queue };
            ts_last = to.ts_last;
            datagrams = to.sent;
          }
      arrives :
          (s : Session S R A) (from : A) (w : List ℕ) (cmsg : Control) {t : ℕ} {to : Endpoint S A}
          → OneOf w s.datagrams
          → Fits s.there.receiver mtu
          → packet_timestamp cmsg ≡ inr t
          → t < 2 ^ 64
          → incoming no_address s.there (received from w false false cmsg) ≡ inr to
          → s ⟶ record s { there = to }
      acked :
          (s : Session S R A) (from : A) (w : List ℕ) (cmsg : Control) {t : ℕ} {to : Endpoint S A}
          → OneOf w (map (λ sent. sent.1) s.there.sent)
          → packet_timestamp cmsg ≡ inr t
          → incoming no_address s.here (received from w false false cmsg) ≡ inr to
          → s ⟶ record s { here = to }
      settles :
          (s : Session S R A) (now timeout : ℕ) {to : Stream S R}
          → HasRoom s.here.queue
          → All IsCausal (in_flight s.here.queue)
          → settle signal observe s.here.queue.size now timeout (stream s) ≡ ok to
          → s ⟶ record s { here = record s.here { queue = to.queue }; rtt = to.rtt; log = to.log }
      reads :
          (s : Session S R A) (n : ℕ)
          → n ≤ used s.there.receiver.recv_buff
          → s ⟶ record s {
            there = record s.there {
              receiver = record s.there.receiver {
                recv_buff = rptr_advance s.there.receiver.recv_buff n;
              };
            };
            taken = s.taken ++ read_bytes s.there.receiver.recv_buff n;
          }

    infix 40 ◌⟶*◌
    pub data ◌⟶*◌ (s : Session S R A) : Session S R A → Type 0 where
      start : s ⟶* s
      next : {t u : Session S R A} → s ⟶* t → t ⟶ u → s ⟶* u
