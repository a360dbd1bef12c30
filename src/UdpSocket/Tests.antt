-- ===== src/UdpSocket/Tests.antt =====
-- A socket whose second option is refused.
use adaptive_transport.Common.{◌≡◌, [], ◌∷◌}
use adaptive_transport.UdpSocket.Socket.{
  call_failed, returned, new_socket, first_error, promised, new_socket_lem,
}

new_socket_lem_example :
    new_socket (returned 5) (returned 0) (call_failed 92) (returned 0)
    ≡ promised
        (returned 5)
        (first_error (returned 5 ∷ returned 0 ∷ call_failed 92 ∷ returned 0 ∷ []))
new_socket_lem_example = new_socket_lem (returned 5) (returned 0) (call_failed 92) (returned 0)
