-- ===== src/Lib.antt =====
-- adaptive-transport: a reliable byte stream over UDP. A sender cuts messages into numbered packets, keeps
-- them in a ring until they are acked, and sends lost ones again; a receiver puts the payloads in order
-- into a ring buffer and acks each packet.
--
-- The parts, and the files that model them:
-- - Packet (src/Packet.hpp, src/Packet.cpp): the datagram in its buffer. `word` is the header; `seq`,
--   `is_ack`, `ts_recv_ack`, `payload` and `wire` read the buffer as the accessors of the same name do.
-- - CircBuff (src/CircBuff.hpp, src/CircBuff.cpp): the ring of received bytes. Its memory is mapped twice
--   in a row; `phys` is that mapping. CircBuff/Refine relates it to a list of bytes, CircBuff/Loop is the
--   compare-exchange loop of its cursors.
-- - PacketQueue (src/PacketQueue.hpp, src/PacketQueue.cpp): the ring of packets with its three cursors.
--   PacketQueue/View reads it as two lists, the packets in flight and those that wait; PacketQueue/Refine,
--   PacketQueue/Enqueue, PacketQueue/Resend and PacketQueue/Search relate the operations to those lists,
--   PacketQueue/Invariant is the invariant with `m_bytesQueued`, and PacketQueue/Reach the step relation
--   of the threads' operations.
-- - UdpStream (src/UDPStream.hpp, src/UDPStream.cpp), by what its threads do: UdpStream/Send is `send`;
--   UdpStream/Receive is `onRecvData`, with the map of early payloads in UdpStream/Held; UdpStream/Settle
--   is the loop of `receiverEntry` that settles the oldest packets in flight and queues lost ones again,
--   with `onMetadata`, UdpStream/Settle/Rtt that loop with the rolling statistics; UdpStream/Incoming is the first half of a round of `receiverEntry`, where datagrams
--   come in; UdpStream/Transmit is a round of `senderEntry`; UdpStream/Limiter is `limiterStats`,
--   UdpStream/Limiter/Control `limiterEntry`; UdpStream/Retransmit has the timeouts and `retransmit`,
--   UdpStream/Setup the constructor, the accessors and the destructor's wait. UdpStream/Delivery joins
--   `send` and `onRecvData`, with UdpStream/Numbered for the packets of a stream by number;
--   UdpStream/Session is the whole stream, both ends and the network between them, as a step relation:
--   UdpStream/Session/Invariant is what holds between the ends, Sending, Transmitting, Arriving,
--   Reading, Acking and Settling keep it, and Reliable draws the conclusions.
-- - UdpSocket (src/UDPSocket.cpp): `recv`, by what `recvmsg` brings; UdpSocket/Socket is the constructor,
--   `bind` and `sendto`.
-- - Address (src/Address.hpp, src/Address.cpp): socket addresses and their texts.
-- - Ptt (src/PTT.hpp, src/PTT.cpp): the ring of packet times with its three cursors. Ptt/View reads it as
--   two lists, the entries in flight and those that can be read; Ptt/Skip, Ptt/InOrder, Ptt/Search,
--   Ptt/Found, Ptt/OutOfOrder and Ptt/Ends relate the operations to them.
-- - TokenBucket (src/TokenBucket.hpp, src/TokenBucket.cpp): `consume`, that holds the sender's thread
--   back.
-- - RollingWindow (src/RollingWindow.cpp), RollingStats (src/RollingStats.cpp, src/RollingFilter.cpp): the
--   ring of the last values of a series, and its sums, its multiset and a filter. RollingWindow/Recent
--   says which value an index reads, RollingStats/Multiset counts and orders, RollingStats/Tallies sums,
--   and RollingStats/Window joins them.
-- - FullIo (src/fullio.cpp): `full_read` and `full_write`, by how each call of the system ends.
-- - FileDescriptor (src/FileDescriptor.cpp, src/Util.hpp): the owner of an open file.
--   FileDescriptor/Ownership is a step relation of objects that are made, moved, used and destroyed;
--   FileDescriptor/Writing is `write`.
-- - Poller (src/Poller.hpp, src/Poller.cpp): callbacks on files that are ready. Poller/Paired relates its
--   two lists, Poller/Rounds is a whole call of `poll`.
-- - Transfer (src/send_data.cpp, src/recv_data.cpp): blocks of the standard input behind their headers;
--   Transfer/Frame reads them back, Transfer/RoundTrip joins both programs.
-- - Benchmark (src/test_client.cpp, src/test_server.cpp): a request for bytes, and their number.
-- - Tester (src/tester.cpp): the hexadecimal text.
-- Common holds the interface to floating-point numbers, integers, Boolean tests, lists, bytes, bit fields
-- and windows of a ring.
--
-- Interaction: `send` and the settling loop fill the packet at the queue's front; the sender's thread
-- takes packets from its transmit cursor; acks are looked up from its unacked cursor on; what arrives goes
-- through `onRecvData` to the ring buffer.
--
-- Numbers are natural numbers with the wrap-around of the source's type written out; an `int` that can be
-- negative is the integer that its word stands for, and wraps round (Common/Words). A call of `front ()`
-- that finds the slot in use is a result of its own, since the code waits there for another thread.
--
-- Fuel: `find` has the ring's size, more than the packets in flight. The loop over early payloads has the
-- size of the map, of which each round takes an entry off. `send` has one round more than the bytes left,
-- of which each round sends at least one. The settling loop and `retransmit` have the ring's size, since
-- each round takes a packet out of flight. So have the loops of the ring of packet times. The loops of a
-- rolling window's index have one round for each unit of the index, of which each takes off or adds at
-- least one. The server of the speed test has as many rounds as bytes are asked for. The other loops go
-- through a list: what the calls of the system or the looks at the stream bring.
--
-- Parameters: the signal of the semaphores (src/lightweightsemaphore.h), the update of the round-trip
-- statistics in UdpStream/Settle, the clock's values, the number that the limiter draws, the
-- floating-point expression of the token bucket, `getaddrinfo` and `getnameinfo`, the operations on `double` (Common/Number, with
-- what holds of whole numbers up to 2^53, and UdpStream/Limiter/Control), the results of the system's calls, and
-- the state of the program on which a poller's callbacks act.
--
-- Not modelled: threads and
-- their timing, which the stream's constructor starts and its destructor joins; the assembler that reads a
-- cycle counter, and a hash that no program calls; command lines and logs; plots; and the third-party
-- headers.
-- Each operation of the queue is one atomic step.
pub mod Common
pub mod Packet
pub mod TokenBucket
pub mod Ptt
pub mod CircBuff
pub mod PacketQueue
pub mod RollingWindow
pub mod RollingStats
pub mod FullIo
pub mod FileDescriptor
pub mod Transfer
pub mod Poller
pub mod Benchmark
pub mod Tester
pub mod Address
pub mod UdpSocket
pub mod UdpStream
