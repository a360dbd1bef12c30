-- ===== src/UdpStream/Settle.antt =====
-- The second half of `UDPStream::receiverEntry`, with `onMetadata`: the oldest packets in flight are
-- settled while they are acked or too old, and a lost one is queued again.
pub mod Round
pub mod Effect
pub mod Progress
pub mod Stale
pub mod Rtt
pub mod Tests
use adaptive_transport.Common.{
  ℕ, zero, suc, ◌+◌, ◌-◌, ◌%◌, ◌^◌, Bool, true, false, not, ◌||◌, Option, none, some, List, [], ◌∷◌,
  ◌++◌, ◌==◌, ltb, if◌then◌else◌, take,
}
use adaptive_transport.Packet.{Packet, seq, copy_buf, set_size}
use adaptive_transport.PacketQueue.{PacketQueue, modify, front, front_next, unacked, unacked_next}

-- What the callback `onPacketMetadata` is given.
pub record Metadata : Type 0 where
  pub number : ℕ
  pub ts_sent : ℕ
  pub ts_recv : ℕ
  pub ts_ack : ℕ

-- The fields that the loop uses. `R` is the state of the statistics `rtt`; `log` is what the callback
-- has been given.
pub record Stream (S R : Type 0) : Type 0 where
  pub queue : PacketQueue S
  pub rtt : R
  pub log : List Metadata

-- The two calls of `abort ()`.
pub data Abort : Type 0 where
  impossible : Abort  -- in `onMetadata`, after "Impossible!"
  not_settled : Abort  -- the last branch of the loop's body

-- `yielding`: the loop that waits for the front slot goes on, for as long as another thread holds it.
-- `running` is a state in which the loop has used up its fuel.
pub data Outcome (A : Type 0) : Type 0 where
  ok : A → Outcome A
  aborted : Abort → Outcome A
  yielding : Outcome A
  running : Outcome A

infixl 5 ◌>>=◌
abbrev pub ◌>>=◌ : {A B : Type 0} → Outcome A → (A → Outcome B) → Outcome B
ok a >>= f = f a
aborted why >>= f = aborted why
yielding >>= f = yielding
running >>= f = running

-- `uint64_t` difference.
abbrev pub sub_u64 : ℕ → ℕ → ℕ
sub_u64 a b = (a + 2 ^ 64 - b) % 2 ^ 64

abbrev pub is_set : ℕ → Bool
is_set ts = not (ts == 0)

unfoldable pub too_old : ℕ → ℕ → Packet → Bool
too_old now timeout p = ltb timeout (sub_u64 now p.ts_sent)

-- The condition of the loop for a packet that is there.
unfoldable pub closed : ℕ → ℕ → Packet → Bool
unfolding too_old
closed now timeout p = is_set p.ts_ack || too_old now timeout p

-- memcpy and the size, from the unacked packet to the front one.
unfoldable pub copy_lost : Packet → Packet → Packet
copy_lost upkt fpkt = set_size (copy_buf fpkt (take upkt.size upkt.buf)) upkt.size

abbrev pub metadata_of : Packet → Metadata
metadata_of p = record {
  number = seq p;
  ts_sent = p.ts_sent;
  ts_recv = p.ts_recv;
  ts_ack = p.ts_ack;
}

-- `UDPStream::onMetadata`; `observe` is the call of `rtt`.
unfoldable pub on_metadata :
    {S R : Type 0} (observe : R → ℕ → R) → Stream S R → Metadata → Outcome (Stream S R)
on_metadata observe s m =
    if is_set m.ts_ack
    then (if ltb m.ts_ack m.ts_sent
        then aborted impossible
        else ok (record s { rtt = observe s.rtt (m.ts_ack - m.ts_sent); log = s.log ++ m ∷ [] }))
    else ok (record s { log = s.log ++ m ∷ [] })

module _ {S : Type 0} (signal : S → S) where
  -- The write to the front slot that `front ()` gave, if it gave one.
  unfoldable pub queue_again : Packet → Option ℕ × PacketQueue S → Outcome (PacketQueue S)
  queue_again upkt (none, q1) = yielding
  queue_again upkt (some f, q1) = ok (front_next signal (modify q1 f (copy_lost upkt)))

  -- The three branches of the loop's body.
  unfoldable pub retransmit_if_lost : ℕ → ℕ → PacketQueue S → Packet → Outcome (PacketQueue S)
  unfolding queue_again
  retransmit_if_lost now timeout q upkt =
      if is_set upkt.ts_ack || is_set upkt.ts_recv
      then ok q
      else if too_old now timeout upkt
      then queue_again upkt (front q)
      else aborted not_settled

module _ {S R : Type 0} (signal : S → S) (observe : R → ℕ → R) where
  -- The loop's body for the packet in slot `u`.
  unfoldable pub settle_one : ℕ → ℕ → Stream S R → ℕ → Outcome (Stream S R)
  unfolding retransmit_if_lost on_metadata
  settle_one now timeout s u = do
    q1 ← retransmit_if_lost signal now timeout s.queue (s.queue.buf u)
    s1 ← on_metadata observe (record s { queue = q1 }) (metadata_of (q1.buf u))
    ok (record s1 { queue = unacked_next s1.queue })

  -- The loop. Each round takes one packet out of flight.
  unfoldable pub settle : ℕ → ℕ → ℕ → Stream S R → Outcome (Stream S R)
  unfolding settle_one
  settle zero now timeout s = running
  settle (suc fuel) now timeout s = elim (unacked s.queue) [
    | none ↦ ok s
    | some u ↦ elim (closed now timeout (s.queue.buf u)) [
      | false ↦ ok s
      | true ↦ elim (settle_one now timeout s u) [
        | ok s1 ↦ settle fuel now timeout s1
        | aborted why ↦ aborted why
        | yielding ↦ yielding
        | running ↦ running
      ]
    ]
  ]
