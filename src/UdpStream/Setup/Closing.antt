-- ===== src/UdpStream/Setup/Closing.antt =====
-- What has been sent when the destructor tells the threads to end.
use adaptive_transport.Common.{
  ◌≤◌, ◌≡◌, refl, sym, ap, ◌∙◌, inl, inr, Bool-cases, some, List, [], ◌∷◌, ◌==◌, arith,
}
use adaptive_transport.Common.Bytes.{All}
use adaptive_transport.Packet.{Packet}
use adaptive_transport.PacketQueue.{PacketQueue}
use adaptive_transport.PacketQueue.View.{total, pending}
use adaptive_transport.PacketQueue.Invariant.{IsValid}
use adaptive_transport.UdpStream.Setup.{close}

no_bytes : (ps : List Packet) → All (λ (p : Packet). 1 ≤ p.size) ps → total ps ≡ 0 → ps ≡ []
no_bytes [] h e = refl
no_bytes (p ∷ ps) h e = absurd (omega (arith, h.0))

module _ {S : Type 0} where
  -- A queue in order whose packets that wait are not empty.
  pub record IsSending (q : PacketQueue S) : Type 0 where
    pub valid : IsValid q
    pub filled : All (λ (p : Packet). 1 ≤ p.size) (pending q)

  -- When the destructor ends its wait, no packet waits to be sent any more. Those in flight may not be acked.
  pub close_lem :
      (looks : List (PacketQueue S)) (q : PacketQueue S)
      → All IsSending looks
      → close looks ≡ some q
      → pending q ≡ []
  unfolding close
  close_lem [] q h e = absurd (ground arith)
  close_lem (r ∷ looks) q h e = elim (Bool-cases (r.bytes_queued == 0)) [
    | inl none_left ↦
        let same : r ≡ q = ground arith in
        let empty : total (pending r) ≡ 0 = ground (arith, h.0.valid.queued) in
        ap pending (sym same) ∙ no_bytes (pending r) h.0.filled empty
    | inr some_left ↦ close_lem looks q h.1 (rw some_left at e)
  ]
