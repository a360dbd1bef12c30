-- ===== src/PacketQueue.antt =====
-- src/PacketQueue.hpp and src/PacketQueue.cpp: one ring of packet slots with three cursors. From
-- `unacked_idx` to `tx_idx` lie the packets that are sent and not settled, from there to `front_idx`
-- those that wait to be sent. Each operation is one atomic step of the thread that calls it.
pub mod View
pub mod Invariant
pub mod Refine
pub mod Search
pub mod Enqueue
pub mod Change
pub mod Resend
pub mod Reach
mod Tests
use adaptive_transport.Common.{
  ℕ, zero, suc, ◌+◌, ◌-◌, ◌%◌, ◌^◌, ◌≤◌, Bool, true, false, ◌||◌, not, Option, none, some, List, [],
  ◌∷◌, ◌==◌, ltb, if◌then◌else◌, update, take,
}
use adaptive_transport.Packet.{Packet, seq, set_seq, set_is_ack, set_size, copy_buf, wire}

-- `S` is the state of a `LightweightSemaphore`.
pub record PacketQueue (S : Type 0) : Type 0 where
  pub front_idx : ℕ
  pub front_used : Bool
  pub tx_idx : ℕ
  pub unacked_idx : ℕ
  pub size : ℕ
  pub bytes_queued : ℕ
  pub buf : ℕ → Packet
  pub front_sema : S
  pub tx_sema : S

abbrev pub slots : ℕ
slots = 8192

-- The step of a cursor, written out at each place of the source.
abbrev pub next_slot : ℕ → ℕ → ℕ
next_slot size i = if i == size - 1 then 0 else i + 1

-- How one wait on the semaphore ends: by its timeout, or with the queue as other threads left it.
pub data Wake (S : Type 0) : Type 0 where
  timed_out : Wake S
  woken : PacketQueue S → Wake S

-- What `tx` returns: a slot, the null pointer, or nothing yet where the wakes given are used up.
pub data Taken (S : Type 0) : Type 0 where
  slot : ℕ → PacketQueue S → Taken S
  timeout : PacketQueue S → Taken S
  waiting : PacketQueue S → Taken S

-- The loop of `find`: ended with what it returns, where `none` is the null pointer, or not within the fuel.
pub data Lookup : Type 0 where
  running : Lookup
  ended : Option ℕ → Lookup

module _ {S : Type 0} where
  -- `PacketQueue::PacketQueue`; `memory` is what `new Packet[m_size]` gives.
  unfoldable pub init : S → (ℕ → Packet) → PacketQueue S
  init idle memory = record {
    front_idx = 0;
    front_used = false;
    tx_idx = 0;
    unacked_idx = 0;
    size = slots;
    bytes_queued = 0;
    buf = memory;
    front_sema = idle;
    tx_sema = idle;
  }

  -- A write through a pointer to slot `i`.
  abbrev pub modify : PacketQueue S → ℕ → (Packet → Packet) → PacketQueue S
  modify q i f = record q { buf = update q.buf i (f (q.buf i)) }

  -- `none` is the null pointer: the front slot is in use.
  unfoldable pub front : PacketQueue S → Option ℕ × PacketQueue S
  front q = if q.front_used then (none, q) else (some q.front_idx, record q { front_used = true })

  unfoldable pub unacked : PacketQueue S → Option ℕ
  unacked q = if q.unacked_idx == q.tx_idx then none else some q.unacked_idx

  unfoldable pub unacked_next : PacketQueue S → PacketQueue S
  unacked_next q = record q { unacked_idx = next_slot q.size q.unacked_idx }

  -- The loop of `find`, from slot `ii`; the fuel bounds its rounds.
  pub find_from : ℕ → PacketQueue S → ℕ → ℕ → Lookup
  find_from zero q s ii = running
  find_from (suc fuel) q s ii =
      let rest = find_from fuel q s (next_slot q.size ii) in
      if ii == q.tx_idx then ended none else if seq (q.buf ii) == s then ended (some ii) else rest

  unfoldable pub find : PacketQueue S → ℕ → Lookup
  unfolding find_from
  find q s = find_from q.size q s q.unacked_idx

  unfoldable pub tx : PacketQueue S → List (Wake S) → Taken S
  tx q [] = if q.tx_idx == q.front_idx then waiting q else slot q.tx_idx q
  tx q (timed_out ∷ wakes) = if q.tx_idx == q.front_idx then timeout q else slot q.tx_idx q
  tx q (woken q' ∷ wakes) =
      let rest = tx q' wakes in if q.tx_idx == q.front_idx then rest else slot q.tx_idx q

  -- The test that `retransmitOlderThan` makes before and after its copy.
  unfoldable pub nothing_older : PacketQueue S → ℕ → Bool
  nothing_older q ts =
      q.unacked_idx == q.tx_idx
      || not ((q.buf q.unacked_idx).ts_recv == 0)
      || ltb ts (q.buf q.unacked_idx).ts_sent

  -- The copy into the front slot `f`, write by write, since it may be the slot read.
  unfoldable pub copy_oldest : PacketQueue S → ℕ → PacketQueue S
  copy_oldest q f =
      let u = q.unacked_idx in
      let q1 = modify q f (λ p. set_seq p (seq (q.buf u))) in
      let q2 = modify q1 f (λ p. set_is_ack p false) in
      let q3 = modify q2 f (λ p. set_size p (q2.buf u).size) in
      modify q3 f (λ p. copy_buf p (take p.size (q3.buf u).buf))

  module _ (signal : S → S) where
    unfoldable pub front_next : PacketQueue S → PacketQueue S
    front_next q = record q {
      bytes_queued = (q.bytes_queued + (q.buf q.front_idx).size) % 2 ^ 32;
      front_idx = next_slot q.size q.front_idx;
      front_used = false;
      front_sema = signal q.front_sema;
    }

    unfoldable pub tx_next : PacketQueue S → PacketQueue S
    tx_next q = record q {
      bytes_queued = (q.bytes_queued + 2 ^ 32 - (q.buf q.tx_idx).size) % 2 ^ 32;
      tx_idx = next_slot q.size q.tx_idx;
      tx_sema = signal q.tx_sema;
    }

    -- `none`: the loop that waits for the front slot goes on, for as long as another thread holds it.
    unfoldable pub retransmit_older_than : PacketQueue S → ℕ → Option (Bool × PacketQueue S)
    unfolding nothing_older copy_oldest
    retransmit_older_than q ts =
        if nothing_older q ts
        then some (false, q)
        else let (pkt, q1) = front q in
          elim pkt [
            | none ↦ none
            | some f ↦
                let q2 = unacked_next (front_next (copy_oldest q1 f)) in
                some (not (nothing_older q2 ts), q2)
          ]
