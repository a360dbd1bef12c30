-- ===== src/UdpStream.antt =====
-- src/UDPStream.hpp and src/UDPStream.cpp: the stream over datagrams. `send` cuts a message into packets,
-- `onRecvData` puts payloads back in order, and the threads move packets between the queue and the
-- socket.
pub mod Held
pub mod Setup
pub mod Send
pub mod Receive
pub mod Settle
pub mod Retransmit
pub mod Incoming
pub mod Numbered
pub mod Delivery
pub mod Transmit
pub mod Limiter
pub mod Session
