-- ===== src/UdpStream/Retransmit/Progress.antt =====
-- `retransmit` ends, and queues again exactly the overdue packets at the head of those in flight.
use adaptive_transport.Common.{
  ℕ, zero, suc, ◌+◌, ◌-◌, ◌<◌, ◌≡◌, refl, ap, ◌∙◌, subst, Bool, true, false, not, inl, inr,
  Bool-cases, Option, some, List, [], ◌∷◌, ◌==◌, length, arith,
}
use adaptive_transport.Packet.{Packet}
use adaptive_transport.PacketQueue.{
  PacketQueue, front, front_next, unacked_next, nothing_older, copy_oldest, retransmit_older_than,
}
use adaptive_transport.PacketQueue.View.{in_flight, length-in_flight, InOrder}
use adaptive_transport.PacketQueue.Search.{unacked-cons}
use adaptive_transport.PacketQueue.Enqueue.{front-free, held_front, enqueue}
use adaptive_transport.PacketQueue.Resend.{IsReady, Resent, oldest-ne-front, again-Resent}
use adaptive_transport.UdpStream.Settle.{ok, sub_u64}
use adaptive_transport.RollingStats.{RollingStats}
use adaptive_transport.Common.Number.{Number}
use adaptive_transport.UdpStream.Retransmit.{retransmit_loop, retransmit, retransmit_timeout}
use adaptive_transport.UdpStream.Retransmit.Copy.{
  copy_unacked, copy_oldest-eq, copy_unacked-IsCopyOf,
}
use adaptive_transport.UdpStream.Retransmit.Overdue.{
  is_overdue, overdue_prefix, first_overdue, overdue_prefix-none, overdue_prefix-some,
  Retransmitted, Retransmitted-none, Retransmitted-cons,
}

not-not : (b : Bool) → not (not b) ≡ b
not-not true = refl
not-not false = refl

module _ {S : Type 0} (signal : S → S) (ts : ℕ) where
  nothing_older-eq :
      (q : PacketQueue S) (flying : List Packet)
      → InOrder q
      → in_flight q ≡ flying
      → nothing_older q ts ≡ not (first_overdue ts flying)
  unfolding nothing_older is_overdue
  nothing_older-eq q [] v e =
      ground (arith, v.order, v.tx_in, v.unacked_in, ap length e, length-in_flight q)
  nothing_older-eq q (p ∷ ps) v e =
      let (found, some_sent, oldest, rest) = unacked-cons v e in
      let apart : (q.unacked_idx == q.tx_idx) ≡ false = ground (arith, some_sent) in
      rw (apart, oldest) (ground arith)

  retransmit_older_than-some :
      (q q1 : PacketQueue S) (f : ℕ)
      → nothing_older q ts ≡ false
      → front q ≡ (some f, q1)
      → retransmit_older_than signal q ts
        ≡ some (
          not (nothing_older (unacked_next (front_next signal (copy_oldest q1 f))) ts),
          unacked_next (front_next signal (copy_oldest q1 f)),
        )
  unfolding retransmit_older_than
  retransmit_older_than-some q q1 f some_older taken =
      rw
        (
          some_older,
          ap (λ (t : Option ℕ × PacketQueue S). t.0) taken,
          ap (λ (t : Option ℕ × PacketQueue S). t.1) taken,
        )
        refl

  retransmit_older_than-none :
      (q : PacketQueue S)
      → nothing_older q ts ≡ true
      → retransmit_older_than signal q ts ≡ some (false, q)
  unfolding retransmit_older_than
  retransmit_older_than-none q none_older = rw none_older refl

  -- One call of `retransmitOlderThan`, with an overdue packet to send again.
  send_again :
      (q : PacketQueue S) (p : Packet) (ps : List Packet)
      → IsReady q
      → in_flight q ≡ p ∷ ps
      → is_overdue ts p ≡ true
      → (q' : PacketQueue S) × (retransmit_older_than signal q ts ≡ some (first_overdue ts ps, q'))
        × Resent q q' p
        × (in_flight q' ≡ ps)
  send_again q p ps r e due =
      let (found, some_sent, oldest, rest) = unacked-cons r.valid.ordered e in
      let copy = copy_unacked-IsCopyOf (r.slots q.unacked_idx) (r.fits q.unacked_idx) in
      let again = again-Resent signal r some_sent copy in
      let test : nothing_older q ts ≡ false =
        nothing_older-eq q (p ∷ ps) r.valid.ordered e ∙ ap not due in
      let q' = unacked_next (enqueue signal q (copy_unacked (q.buf q.unacked_idx))) in
      let flies : in_flight q' ≡ ps = cc (e, again.settled) in
      (
        q',
        retransmit_older_than-some q (held_front q) q.front_idx test (front-free q r.free)
            ∙ ap
                (λ (h : PacketQueue S). some (
                  not (nothing_older (unacked_next (front_next signal h)) ts),
                  unacked_next (front_next signal h),
                ))
                (copy_oldest-eq (held_front q) q.front_idx
                  (oldest-ne-front r.valid.ordered some_sent))
            ∙ ap (λ (b : Bool). some (b, q'))
                (ap not (nothing_older-eq q' ps again.ready.valid.ordered flies)
                  ∙ not-not (first_overdue ts ps)),
        subst (λ (o : Packet). Resent q q' o) oldest again,
        flies,
      )

  loop_stops :
      (fuel : ℕ) (q : PacketQueue S) (n : ℕ) (flying : List Packet)
      → IsReady q
      → in_flight q ≡ flying
      → first_overdue ts flying ≡ false
      → retransmit_loop signal (suc fuel) q ts n
        ≡ ok (n + (length (overdue_prefix ts flying) - 1), q)
  unfolding retransmit_loop
  loop_stops fuel q n flying r e h =
      let found =
        retransmit_older_than-none q (nothing_older-eq q flying r.valid.ordered e ∙ ap not h) in
      let count : n ≡ n + (length (overdue_prefix ts flying) - 1) =
        omega (arith, ap length (overdue_prefix-none ts flying h)) in
      rw (found, retransmit_loop) (ap (λ (k : ℕ). ok (k, q)) count)

  loop_ends :
      (fuel : ℕ) (q : PacketQueue S) (n : ℕ) (flying : List Packet)
      → IsReady q
      → in_flight q ≡ flying
      → length flying < fuel
      → (q' : PacketQueue S) × (retransmit_loop signal fuel q ts n
          ≡ ok (n + (length (overdue_prefix ts flying) - 1), q'))
        × Retransmitted ts q q' flying
  unfolding retransmit_loop overdue_prefix
  loop_ends zero q n flying r e le = absurd (omega arith)
  loop_ends (suc fuel) q n [] r e le =
      (q, loop_stops fuel q n [] r e refl, Retransmitted-none ts q [] r e refl)
  loop_ends (suc fuel) q n (p ∷ ps) r e le = elim (Bool-cases (is_overdue ts p)) [
    | inr young ↦
        (q, loop_stops fuel q n (p ∷ ps) r e young, Retransmitted-none ts q (p ∷ ps) r e young)
    | inl due ↦
        let (q1, runs, sent, flies) = send_again q p ps r e due in
        elim (Bool-cases (first_overdue ts ps)) [
          | inr last ↦ (
            q1,
            rw (runs, last, retransmit_loop)
                (ap (λ (k : ℕ). ok (k, q1))
                  (rw due (omega (arith, ap length (overdue_prefix-none ts ps last))))),
            Retransmitted-cons ts due sent.waits
                (Retransmitted-none ts q1 ps sent.ready flies last),
          )
          | inl more ↦
              let (q', runs', h) = loop_ends fuel q1 (n + 1) ps sent.ready flies (omega arith) in
              (
                q',
                rw (runs, more, retransmit_loop)
                    (runs'
                      ∙ ap (λ (k : ℕ). ok (k, q'))
                          (rw due (omega (arith, overdue_prefix-some ts ps more)))),
                Retransmitted-cons ts due sent.waits h,
              )
        ]
  ]

-- For a queue in order, with its front slot free and room for one more packet, `retransmit` ends
-- without waiting, within as many rounds as the ring has slots: the packets in flight are those from
-- the first one on that is not overdue, the overdue ones before it wait again behind the packets that
-- waited, with the same bytes for the wire, and the number returned is one less than the number of
-- those, or 0.
pub retransmit_lem :
    {S W : Type 0} (signal : S → S) (n : Number W) (to_u64 : W → ℕ) (rtt : RollingStats W) (now : ℕ)
    (q : PacketQueue S)
    → IsReady q
    → (let ts = sub_u64 now (retransmit_timeout n to_u64 rtt) in
        (q' : PacketQueue S) × (retransmit signal n to_u64 rtt now q
          ≡ ok (length (overdue_prefix ts (in_flight q)) - 1, q'))
        × Retransmitted ts q q' (in_flight q))
unfolding retransmit
retransmit_lem signal n to_u64 rtt now q r =
    let ts = sub_u64 now (retransmit_timeout n to_u64 rtt) in
    let (q', runs, h) =
      loop_ends signal ts q.size q 0 (in_flight q) r refl
        (omega (arith, length-in_flight q, r.valid.ordered.order)) in
    let count : 0 + (length (overdue_prefix ts (in_flight q)) - 1)
        ≡ length (overdue_prefix ts (in_flight q)) - 1 =
      omega arith in
    (q', runs ∙ ap (λ (k : ℕ). ok (k, q')) count, h)
