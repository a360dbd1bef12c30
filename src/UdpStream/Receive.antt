-- ===== src/UdpStream/Receive.antt =====
-- `UDPStream::onRecvData`: payloads in the order of their sequence numbers.
pub mod Order
pub mod Complete
pub mod Buffer
mod Tests
use adaptive_transport.Common.{
  ℕ, zero, suc, ◌+◌, ◌%◌, ◌^◌, Option, none, some, List, [], ◌∷◌, ◌==◌, ltb, if◌then◌else◌, length,
}
use adaptive_transport.CircBuff.{CircBuff}
use adaptive_transport.CircBuff.Refine.{append}
use adaptive_transport.UdpStream.Held.{Held, lookup, erase, insert}

-- The fields that `onRecvData` uses. `B` is the buffer that the payloads go to: `CircBuff` in the code,
-- and a plain list of bytes where only their order matters.
pub record Receiver (B : Type 0) : Type 0 where
  pub next_seq : ℕ
  pub recv_map : Held
  pub recv_buff : B

-- `uint32_t` increment.
abbrev pub next_u32 : ℕ → ℕ
next_u32 n = (n + 1) % 2 ^ 32

-- The fields as `UDPStream::UDPStream` sets them.
abbrev pub start : {B : Type 0} → B → Receiver B
start b = record { next_seq = 1; recv_map = []; recv_buff = b }

module _ {B : Type 0} (put : B → List ℕ → B) where
  -- One round of the `while` loop, for the payload found under `next_seq`.
  abbrev pub round : Receiver B → List ℕ → Receiver B
  round r pl = record {
    next_seq = next_u32 r.next_seq;
    recv_map = erase r.next_seq r.recv_map;
    recv_buff = put r.recv_buff pl;
  }

  -- The `while` loop; each round takes an entry off the map, whose size is the fuel.
  unfoldable pub drain : ℕ → Receiver B → Receiver B
  drain zero r = r
  drain (suc fuel) r = elim (lookup r.next_seq r.recv_map) [
    | none ↦ r
    | some pl ↦ drain fuel (round r pl)
  ]

  -- The branches before the loop: in order, too early, too old.
  unfoldable pub arrive : Receiver B → ℕ → List ℕ → Receiver B
  arrive r dseq base =
      if dseq == r.next_seq
      then record r { next_seq = next_u32 r.next_seq; recv_buff = put r.recv_buff base }
      else if ltb r.next_seq dseq
      then record r { recv_map = insert dseq base r.recv_map }
      else r

  unfoldable pub on_recv_data : Receiver B → ℕ → List ℕ → Receiver B
  on_recv_data r dseq base = let r' = arrive r dseq base in drain (length r'.recv_map) r'

  -- A sequence of arrivals, whatever the network made of the order.
  unfoldable pub receive_all : Receiver B → List (ℕ × List ℕ) → Receiver B
  receive_all r [] = r
  receive_all r ((dseq, base) ∷ rest) = receive_all (on_recv_data r dseq base) rest

-- The code's own buffer: memcpy to `wptr ()`, then `wptrAdvance`.
unfoldable pub on_recv : Receiver CircBuff → ℕ → List ℕ → Receiver CircBuff
unfolding on_recv_data arrive drain
on_recv = on_recv_data append
