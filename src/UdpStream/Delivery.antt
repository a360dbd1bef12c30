-- ===== src/UdpStream/Delivery.antt =====
-- From `send` at one end over the network to `onRecvData` at the other.
mod Tests
use mathlib.Core.List.{append_cancel_left}
use adaptive_transport.Common.{
  ℕ, zero, suc, ◌+◌, ◌-◌, ◌%◌, ◌^◌, ◌≤◌, ◌<◌, ◌≡◌, refl, sym, ap, ap₂, subst, ◌∙◌, Option, none,
  some, List, [], ◌∷◌, ◌++◌, map, append-nil, append_assoc, length, length-append, arith,
}
use adaptive_transport.Common.Bytes.{All, IsBytes}
use adaptive_transport.Packet.{Packet, seq, payload}
use adaptive_transport.PacketQueue.View.{in_flight_count, pending_count, pending, length-pending}
use adaptive_transport.UdpSocket.Whole.{Same}
use adaptive_transport.UdpStream.Send.{Sender, send}
use adaptive_transport.UdpStream.Send.Fill.{IsData}
use adaptive_transport.UdpStream.Send.Queued.{Cut, packets, IsReady, Sent}
use adaptive_transport.UdpStream.Send.Cut.{send-Sent}
use adaptive_transport.UdpStream.Numbered.{
  nth, chunks, Cut-Numbered, joined-Numbered, nth-Numbered, nth-chunks, nth-lt,
}
use adaptive_transport.UdpStream.Receive.{start, receive_all}
use adaptive_transport.UdpStream.Receive.Order.{joined, FromStream}
use adaptive_transport.UdpStream.Receive.Complete.{Arrives, delivered_all}

-- What the receiver reads in a packet.
abbrev pub read : Packet → ℕ × List ℕ
read r = (seq r, payload r)

-- Every arrival is a copy of one of the packets, received at some time.
abbrev pub Copies : List Packet → List Packet → Type 0
Copies ps = All (λ r. (i : ℕ) × (p : Packet) × (t : ℕ) × (nth i ps ≡ some p) × Same r p t)

-- Each packet is received at least once.
abbrev pub AllArrive : List Packet → List Packet → Type 0
AllArrive ps arrivals =
    (i : ℕ) (p : Packet) → nth i ps ≡ some p → Arrives (seq p) (map read arrivals)

-- The packet at place `i` has the `i`th number, and its payload is that chunk.
nth-Cut :
    (dseq : ℕ) (msg : List ℕ) (ps : List Packet) (i : ℕ) {p : Packet}
    → Cut dseq msg ps
    → dseq + length ps ≤ 2 ^ 31
    → nth i ps ≡ some p
    → (seq p ≡ dseq + i) × (payload p ≡ chunks ps (suc i)) × (i < length ps)
nth-Cut dseq msg ps i {p} cut small e =
    let (data_of, inside) =
      nth-Numbered dseq msg ps i {p = p} (Cut-Numbered dseq msg ps cut small) e in
    (omega (arith, data_of.1.number), nth-chunks i ps {p = p} e, inside)

Copies-FromStream :
    (msg : List ℕ) (ps arrivals : List Packet)
    → Cut 1 msg ps
    → length ps < 2 ^ 31
    → Copies ps arrivals
    → FromStream (chunks ps) (length ps) (map read arrivals)
Copies-FromStream msg ps [] cut small copies = tt
Copies-FromStream msg ps (r ∷ rest) cut small ((i, p, t, place, same), copies) =
    let (number, content, inside) = nth-Cut 1 msg ps i {p = p} cut (omega arith) place in
    let at : seq r ≡ suc i = omega (arith, same.number, number) in
    (
      (omega arith, omega arith, same.content ∙ content ∙ ap (chunks ps) (sym at)),
      Copies-FromStream msg ps rest cut small copies,
    )

AllArrive-Arrives :
    (msg : List ℕ) (ps arrivals : List Packet)
    → Cut 1 msg ps
    → length ps < 2 ^ 31
    → AllArrive ps arrivals
    → (k : ℕ) → 1 ≤ k
    → k ≤ length ps
    → Arrives k (map read arrivals)
AllArrive-Arrives msg ps arrivals cut small all k lo hi =
    let (p, place) = nth-lt (k - 1) ps (omega arith) in
    let (number, _, _) = nth-Cut 1 msg ps (k - 1) {p = p} cut (omega arith) place in
    let at : seq p ≡ k = omega (arith, number) in
    subst (λ j. Arrives j (map read arrivals)) at (all (k - 1) p place)

-- For a fresh stream whose queue is in order and `send` of a message of fewer than 2^32 bytes that
-- fits the free slots, over a network that loses, repeats and reorders packets: once each of the
-- packets that the call queued (`ps`) has been received at least once, a fresh receiver that collects
-- into a plain list of bytes has delivered exactly the message.
pub message_delivered :
    {S : Type 0} (signal : S → S) (s s' : Sender S) (msg : List ℕ) (ps arrivals : List Packet)
    → IsReady s
    → s.dseq ≡ 1
    → IsBytes msg
    → length msg < 2 ^ 32
    → in_flight_count s.queue + pending_count s.queue + packets (length msg) < s.queue.size
    → send signal s msg ≡ some s'
    → pending s'.queue ≡ pending s.queue ++ ps
    → Copies ps arrivals
    → AllArrive ps arrivals
    → (receive_all ◌++◌ (start []) (map read arrivals)).recv_buff ≡ msg
message_delivered signal s s' msg ps arrivals r fresh bytes small room runs queued copies all =
    delivered_all (chunks ps) (length ps) (map read arrivals) few
      (Copies-FromStream msg ps arrivals cut few copies)
      (AllArrive-Arrives msg ps arrivals cut few all)
    ∙ joined-Numbered 1 msg ps (Cut-Numbered 1 msg ps cut (omega (arith, few)))
  where
    sent : (ps' : List Packet) × Sent s s' msg ps'
    sent =
        let (s1, ps1, runs1, sent1) = send-Sent signal s msg r bytes small room in
        let same : s1 ≡ s' = cc (runs, runs1) in (ps1, subst (λ s2. Sent s s2 msg ps1) same sent1)

    same_packets : sent.0 ≡ ps
    same_packets = append_cancel_left (pending s.queue) sent.0 ps (sym sent.1.waits ∙ queued)

    cut : Cut 1 msg ps
    cut = rw (fresh, same_packets) at sent.1.cut

    few : length ps < 2 ^ 31
    few = omega (
      arith,
      ap length queued,
      length-append (pending s.queue) ps,
      length-pending s'.queue,
      sent.1.ready.valid.ordered.order,
      sent.1.ready.valid.few,
    )
