-- ===== src/Packet.antt =====
-- src/Packet.hpp and src/Packet.cpp: a datagram in its buffer, with the 4-byte header that holds the
-- sequence number (31 bits) and the ack flag (bit 31), and the timestamps kept beside it.
pub mod Header
pub mod Payload
mod Tests
use adaptive_transport.Common.{
  ℕ, ◌+◌, ◌-◌, ◌*◌, ◌^◌, bit_and, bit_or, Bool, not, List, ◌==◌, if◌then◌else◌, replicate, drop,
  take, map_from, overwrite,
}
use adaptive_transport.Common.Bytes.{load_le, store_le}

-- `Packet::MTU`, the bytes of payload that one packet carries.
abbrev pub mtu : ℕ
mtu = 1400

-- A `uint16_t` and two `uint64_t` fields are numbers; `buf` is the array `m_buf`, a byte each.
pub record Packet : Type 0 where
  pub buf : List ℕ
  pub size : ℕ
  pub ts_sent : ℕ
  pub ts_recv : ℕ
  pub ts_ack : ℕ

-- `Packet::Packet`. The constructor leaves `m_buf` as it is; here it is the argument.
abbrev pub init : List ℕ → Packet
init memory = record { buf = memory; size = 0; ts_sent = 0; ts_recv = 0; ts_ack = 0 }

-- `1 << 31` and `~(1 << 31)`, as the `uint32_t` that the masks turn into.
abbrev pub ack_bit : ℕ
ack_bit = 2 ^ 31

abbrev pub seq_mask : ℕ
seq_mask = 2 ^ 31 - 1

-- `reinterpret_cast<uint32_t *>(m_buf)[0]` on a little-endian machine.
abbrev pub word : Packet → ℕ
word p = load_le 4 p.buf

abbrev pub set_word : Packet → ℕ → Packet
set_word p v = record p { buf = store_le 4 v p.buf }

unfoldable pub is_ack : Packet → Bool
is_ack p = not (bit_and (word p) ack_bit == 0)

unfoldable pub set_is_ack : Packet → Bool → Packet
set_is_ack p val = set_word p (bit_or (bit_and (word p) seq_mask) ((if val then 1 else 0) * 2 ^ 31))

unfoldable pub seq : Packet → ℕ
seq p = bit_and (word p) seq_mask

unfoldable pub set_seq : Packet → ℕ → Packet
set_seq p val = set_word p (bit_or (bit_and (word p) ack_bit) (bit_and val seq_mask))

-- `reinterpret_cast<uint64_t *>(m_buf + 4)[0]`.
unfoldable pub ts_recv_ack : Packet → ℕ
ts_recv_ack p = load_le 8 (drop 4 p.buf)

unfoldable pub set_ts_recv_ack : Packet → ℕ → Packet
set_ts_recv_ack p v = record p { buf = map_from 4 (store_le 8 v) p.buf }

-- memcpy (dataPayload (), bytes, n) and memcpy (buf (), bytes, n).
unfoldable pub copy_payload : Packet → List ℕ → Packet
copy_payload p bytes = record p { buf = map_from 4 (overwrite bytes) p.buf }

unfoldable pub copy_buf : Packet → List ℕ → Packet
copy_buf p bytes = record p { buf = overwrite bytes p.buf }

-- The bytes that a `sendto (…, buf (), size ())` hands over, and the `size () - 4` bytes at
-- `dataPayload ()`. `size - 4` is read only where the size is at least 4.
unfoldable pub wire : Packet → List ℕ
wire p = take p.size p.buf

unfoldable pub payload : Packet → List ℕ
payload p = take (p.size - 4) (drop 4 p.buf)

unfoldable pub set_size : Packet → ℕ → Packet
set_size p n = record p { size = n }

unfoldable pub set_ts_sent : Packet → ℕ → Packet
set_ts_sent p t = record p { ts_sent = t }

unfoldable pub set_ts_recv : Packet → ℕ → Packet
set_ts_recv p t = record p { ts_recv = t }

unfoldable pub set_ts_ack : Packet → ℕ → Packet
set_ts_ack p t = record p { ts_ack = t }
