-- ===== src/UdpStream/Transmit.antt =====
-- A round of `UDPStream::senderEntry`: the packet at the transmit cursor waits for the token bucket, is
-- stamped and goes out.
pub mod Effect
mod Tests
use adaptive_transport.Common.{
  ℕ, ◌+◌, ◌*◌, Bool, true, false, Option, none, some, List, [], ◌∷◌, ◌++◌, if◌then◌else◌,
}
use adaptive_transport.Packet.{Packet, set_ts_sent, wire}
use adaptive_transport.PacketQueue.{
  PacketQueue, modify, tx, tx_next, Wake, Taken, slot, timeout, waiting,
}
use adaptive_transport.TokenBucket.{consume}

-- The fields and the local bucket that the round uses. `sent` is what `sendto` has been given for the peer.
pub record Link (S : Type 0) : Type 0 where
  pub queue : PacketQueue S
  pub ts_last : ℕ
  pub sent : List (List ℕ)

abbrev pub burst_size : ℕ
burst_size = 128 * 1024

-- The packet in slot `i`, stamped `now`, goes out.
unfoldable pub send_slot :
    {S : Type 0} (signal : S → S) (now : ℕ) → Link S → PacketQueue S → ℕ → ℕ → Link S
send_slot signal now l q i ts_last =
    let q1 = modify q i (λ p. set_ts_sent p now) in
    record { queue = tx_next signal q1; ts_last = ts_last; sent = l.sent ++ wire (q1.buf i) ∷ [] }

module _ (credit : (diff rate burst : ℕ) → ℕ) where
  -- The loop that waits for the bucket, for the clock's value and the bandwidth at each try: `m_tsLast` once
  -- a try lets the bytes through, `none` while none has.
  unfoldable pub hold : (ts_last bytes : ℕ) → (tries : List (ℕ × ℕ)) → Option ℕ
  hold ts_last bytes [] = none
  hold ts_last bytes ((now, bandwidth) ∷ tries) =
      let r = consume credit ts_last now bytes bandwidth burst_size in
      let rest = hold r.1 bytes tries in if r.0 then some r.1 else rest

  module _ {S : Type 0} (signal : S → S) where
    -- The round, for what the waits in `tx` and the tries at the bucket bring. `none`: it is still waiting.
    unfoldable pub transmit : List (Wake S) → List (ℕ × ℕ) → (now : ℕ) → Link S → Option (Link S)
    unfolding hold send_slot
    transmit wakes tries now l = elim (tx l.queue wakes) [
      | timeout q ↦ some (record l { queue = q })
      | waiting q ↦ none
      | slot i q ↦ elim (hold l.ts_last (q.buf i).size tries) [
        | none ↦ none
        | some ts_last ↦ some (send_slot signal now l q i ts_last)
      ]
    ]
