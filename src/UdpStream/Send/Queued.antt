-- ===== src/UdpStream/Send/Queued.antt =====
-- What it means that packets that are queued carry a message.
use adaptive_transport.Common.{
  ℕ, ◌+◌, ◌/◌, ◌%◌, ◌^◌, ◌≤◌, ◌<◌, min, ◌≡◌, false, List, [], ◌∷◌, ◌++◌, length,
}
use adaptive_transport.Packet.{Packet, mtu}
use adaptive_transport.Packet.Header
use adaptive_transport.PacketQueue.View.{in_flight, pending}
use adaptive_transport.PacketQueue.Invariant.{IsValid}
use adaptive_transport.UdpStream.Send.{Sender}
use adaptive_transport.UdpStream.Send.Fill.{IsData}

-- `ps` carries `bytes`, as much as fits in each packet, under consecutive numbers from `dseq` on.
abbrev pub Cut : ℕ → List ℕ → List Packet → Type 0
Cut dseq bytes [] = bytes ≡ []
Cut dseq bytes (p ∷ ps) =
    (first rest : List ℕ) × (bytes ≡ first ++ rest)
    × (length first ≡ min (length bytes) mtu)
    × IsData p dseq first
    × Cut ((dseq + 1) % 2 ^ 32) rest ps

-- The packets that `n` bytes take.
abbrev pub packets : ℕ → ℕ
packets n = (n + 1399) / 1400

module _ {S : Type 0} where
  -- The front slot is free, and every slot is a packet whose buffer holds bytes.
  pub record IsReady (s : Sender S) : Type 0 where
    pub valid : IsValid s.queue
    pub free : s.queue.front_used ≡ false
    pub slots : (i : ℕ) → Header.IsValid (s.queue.buf i)
    pub wraps : s.dseq < 2 ^ 32

  -- What sending `bytes` as the packets `ps` changes.
  pub record Sent (s s' : Sender S) (bytes : List ℕ) (ps : List Packet) : Type 0 where
    pub ready : IsReady s'
    pub waits : pending s'.queue ≡ pending s.queue ++ ps
    pub flies : in_flight s'.queue ≡ in_flight s.queue
    pub cut : Cut s.dseq bytes ps
    pub next : s'.dseq ≡ (s.dseq + length ps) % 2 ^ 32
    pub fits :
        ((i : ℕ) → (s.queue.buf i).size ≤ mtu + 4) → (i : ℕ) → (s'.queue.buf i).size ≤ mtu + 4
