-- ===== src/UdpSocket.antt =====
-- src/UDPSocket.cpp: receiving one datagram with its time stamp into a packet.
pub mod Whole
pub mod Socket
mod Tests
use adaptive_transport.Common.{
  ℕ, ◌+◌, ◌*◌, ◌/◌, ◌%◌, ◌^◌, Bool, true, false, List, ◌==◌, if◌then◌else◌, length, ◌⊎◌, inl, inr,
}
use adaptive_transport.Packet.{Packet, copy_buf, set_size, set_ts_recv}

-- The first control message of a `msghdr`: none, one of another type, or a `timespec`.
pub data Control : Type 0 where
  no_control : Control
  other_control : Control
  timespec : (sec nsec : ℕ) → Control

-- What `recvmsg` brings: -1, or a datagram that it has copied to the packet's buffer, with the address
-- that it came from (`A`), whether MSG_TRUNC and whether any other flag is set, and the control message.
pub data Recvmsg (A : Type 0) : Type 0 where
  failed : Recvmsg A
  received : (from : A) (bytes : List ℕ) (truncated other_flag : Bool) → Control → Recvmsg A

-- The calls of `abort ()`.
pub data SocketAbort : Type 0 where
  invalid_header : SocketAbort
  unexpected_type : SocketAbort
  no_timestamp : SocketAbort
  oversized : SocketAbort
  unhandled_flag : SocketAbort

-- `packetTimestamp`, in microseconds, for the times that `time_t` counts in nanoseconds without overflow.
unfoldable pub packet_timestamp : Control → SocketAbort ⊎ ℕ
packet_timestamp no_control = inl invalid_header
packet_timestamp other_control = inl unexpected_type
packet_timestamp (timespec sec nsec) =
    let timestamp = (sec * 1000000000 + nsec) / 1000 in
    if timestamp == 0 then inl no_timestamp else inr timestamp

-- The size and the time of a whole datagram.
abbrev pub stamp : Packet → List ℕ → SocketAbort ⊎ ℕ → SocketAbort ⊎ Packet
stamp pkt bytes (inl why) = inl why
stamp pkt bytes (inr ts) =
    inr (set_ts_recv (set_size (copy_buf pkt bytes) (length bytes % 2 ^ 16)) ts)

module _ {A : Type 0} where
  -- `UDPSocket::recv`; `no_address` is `Address ()`.
  unfoldable pub recv : A → Packet → Recvmsg A → SocketAbort ⊎ (A × Packet)
  unfolding packet_timestamp
  recv no_address pkt failed = inr (no_address, pkt)
  recv no_address pkt (received from bytes truncated other_flag control) =
      if truncated
      then inl oversized
      else if other_flag
      then inl unhandled_flag
      else elim (stamp pkt bytes (packet_timestamp control)) [
        | inl why ↦ inl why
        | inr pkt' ↦ inr (from, pkt')
      ]
