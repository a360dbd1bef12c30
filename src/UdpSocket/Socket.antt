-- ===== src/UdpSocket/Socket.antt =====
-- src/UDPSocket.cpp: the socket around `recv`, as an owner of a file: its constructor with the options that it
-- sets, `bind`, `sendto`, and the count of the datagrams that come in.
use adaptive_transport.Common.{
  ℕ, Option, none, some, List, [], ◌∷◌, ◌++◌, ◌⊎◌, ◌==◌, if◌then◌else◌, length, ◌≡◌, refl, arith,
}
use adaptive_transport.Common.Int.{ℤ, pos}
use adaptive_transport.Packet.{Packet}
use adaptive_transport.FileDescriptor
use adaptive_transport.FileDescriptor.{
  FileDescriptor, Result, ok, threw, exited, register_read, register_write, destroy, ◌>>=◌,
}
use adaptive_transport.Address.{Address}
use adaptive_transport.UdpSocket.{Recvmsg, failed, received, SocketAbort, recv}

-- What a call of the system returns: -1 with its `errno`, or a number.
pub data Call : Type 0 where
  call_failed : ℕ → Call
  returned : ℕ → Call

-- `SystemCall`.
abbrev pub system_call : Call → Result ℕ
system_call (call_failed errno) = threw errno
system_call (returned n) = ok n

-- The options of the constructor, with their values.
pub data SocketOption : Type 0 where
  reuse_addr : ℕ → SocketOption
  timestampns : ℕ → SocketOption
  rcvtimeo : (sec usec : ℕ) → SocketOption

-- `UDPSocket::Timeout`, in microseconds.
abbrev pub recv_timeout : ℕ
recv_timeout = 10000

-- A constructor that returns, with the options that it has set, or that throws: its base, once made, is
-- destroyed, which closes its file.
pub data Construction : Type 0 where
  made : FileDescriptor → List SocketOption → Construction
  thrown : (errno : ℕ) → (closed : Option ℤ) → Construction

-- The base's constructor.
abbrev pub create : Call → Construction
create (call_failed errno) = thrown errno none
create (returned k) = made (FileDescriptor.init (pos k)) []

-- `setsockopt`, in the constructor.
unfoldable pub set_option : Construction → SocketOption → Call → Construction
set_option (thrown errno closed) option call = thrown errno closed
set_option (made d set) option (returned n) = made d (set ++ option ∷ [])
set_option (made d set) option (call_failed errno) = thrown errno (destroy d)

-- `UDPSocket::UDPSocket`, for what its four calls return; those behind one that fails are not made.
unfoldable pub new_socket : Call → Call → Call → Call → Construction
unfolding set_option
new_socket socket first second third =
    let base = create socket in
    let reusable = set_option base (reuse_addr 1) first in
    let stamping = set_option reusable (timestampns 1) second in
    set_option stamping (rcvtimeo 0 recv_timeout) third

-- `bind`.
abbrev pub bind : FileDescriptor → Address → Call → Result FileDescriptor
bind d address call = do n ← system_call call; ok d

-- `sendto`: where the system takes another number of bytes than the datagram's, `exit (1)`.
unfoldable pub sendto : FileDescriptor → Address → List ℕ → Call → Result FileDescriptor
sendto d destination buf call = do
  n ← system_call call
  if n == length buf then ok (register_write d) else exited

-- `recv` with its count of what comes in; it counts before it looks at the flags.
unfoldable pub recv_counted :
    {A : Type 0}
    → FileDescriptor
    → A
    → Packet
    → Recvmsg A
    → FileDescriptor × (SocketAbort ⊎ (A × Packet))
unfolding recv
recv_counted d no_address pkt failed = (d, recv no_address pkt failed)
recv_counted d no_address pkt (received from bytes truncated other_flag control) =
    (register_read d, recv no_address pkt (received from bytes truncated other_flag control))

-- The first error of some calls.
abbrev pub first_error : List Call → Option ℕ
first_error [] = none
first_error (call_failed errno ∷ calls) = some errno
first_error (returned n ∷ calls) = first_error calls

-- The file of a call that has opened one.
abbrev pub opened : Call → Option ℤ
opened (call_failed errno) = none
opened (returned k) = some (pos k)

-- What the constructor promises, for its first error, if any.
abbrev pub promised : Call → Option ℕ → Construction
promised socket (some errno) = thrown errno (opened socket)
promised (returned k) none =
    made (FileDescriptor.init (pos k)) (reuse_addr 1 ∷ timestampns 1 ∷ rcvtimeo 0 10000 ∷ [])
promised (call_failed errno) none = thrown errno none

-- Whatever the four calls return: if none fails, the constructor returns the owner of the new file, on
-- which the three options were set, each once, with a time limit of ten milliseconds for `recv`; if
-- one fails, it throws the first error, and the file, if it was opened, is closed.
pub new_socket_lem :
    (socket first second third : Call)
    → new_socket socket first second third
      ≡ promised socket (first_error (socket ∷ first ∷ second ∷ third ∷ []))
unfolding new_socket set_option destroy FileDescriptor.init
new_socket_lem (call_failed e) first second third = refl
new_socket_lem (returned k) (call_failed e) second third = ground arith
new_socket_lem (returned k) (returned n) (call_failed e) third = ground arith
new_socket_lem (returned k) (returned n) (returned m) (call_failed e) = ground arith
new_socket_lem (returned k) (returned n) (returned m) (returned l) = refl
