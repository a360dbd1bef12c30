-- ===== src/UdpStream/Receive/Order.antt =====
-- In any order of arrival, with losses and duplicates, what is delivered is a prefix of the stream.
use adaptive_transport.Common.{
  ℕ, zero, suc, ◌+◌, ◌-◌, ◌^◌, ◌≤◌, ◌<◌, ◌≡◌, refl, ap, ◌∙◌, inl, inr, some, Option-cases,
  Bool-cases, ==→eq, List, [], ◌∷◌, ◌++◌, ◌==◌, ltb, arith,
}
use adaptive_transport.Common.Bytes.{All}
use adaptive_transport.UdpStream.Held.{Held, lookup, erase, lookup-erase, lookup-insert}
use adaptive_transport.UdpStream.Receive.{
  Receiver, next_u32, start, round, drain, arrive, on_recv_data, receive_all,
}

-- The stream that a sender cuts: payload `chunk s` travels under sequence number `s`, from 1 on.
-- `joined chunk n` is the first `n` payloads, one behind the other.
abbrev pub joined : (ℕ → List ℕ) → ℕ → List ℕ
joined chunk zero = []
joined chunk (suc n) = joined chunk n ++ chunk (suc n)

-- A receiver that collects into a plain list.
abbrev pub Collector : Type 0
Collector = Receiver (List ℕ)

-- Every arrival is one of the `n` packets of the stream.
abbrev pub FromStream : (ℕ → List ℕ) → ℕ → List (ℕ × List ℕ) → Type 0
FromStream chunk n = All (λ a. (1 ≤ a.0) × (a.0 ≤ n) × (a.1 ≡ chunk a.0))

module _ (chunk : ℕ → List ℕ) (n : ℕ) where
  -- Held payloads are the stream's, and what is delivered is the stream up to `next_seq`.
  pub record Inv (r : Collector) : Type 0 where
    pub low : 1 ≤ r.next_seq
    pub high : r.next_seq ≤ n + 1
    pub held : (k : ℕ) (v : List ℕ) → lookup k r.recv_map ≡ some v → (v ≡ chunk k) × (k ≤ n)
    pub delivered : r.recv_buff ≡ joined chunk (r.next_seq - 1)

  joined-next : (s : ℕ) → 1 ≤ s → joined chunk (s - 1) ++ chunk s ≡ joined chunk s
  joined-next zero h = absurd (omega arith)
  joined-next (suc s) h = let e : suc s - 1 ≡ s = omega arith in rw e

  next_u32-eq : (s : ℕ) → s ≤ n → n < 2 ^ 31 → next_u32 s ≡ s + 1
  next_u32-eq s h small = omega arith

  -- Delivering the next payload.
  deliver-Inv :
      {r : Collector} (m : Held)
      → n < 2 ^ 31
      → Inv r
      → r.next_seq ≤ n
      → ((k : ℕ) (v : List ℕ) → lookup k m ≡ some v → (v ≡ chunk k) × (k ≤ n))
      → Inv (record {
        next_seq = next_u32 r.next_seq;
        recv_map = m;
        recv_buff = r.recv_buff ++ chunk r.next_seq;
      })
  deliver-Inv {r} m small v h held' = record {
    low = omega (arith, e);
    high = omega (arith, e);
    held = held';
    delivered =
        ap (λ b. b ++ chunk r.next_seq) v.delivered
        ∙ joined-next r.next_seq v.low
        ∙ ap (joined chunk) (let t : r.next_seq ≡ next_u32 r.next_seq - 1 = omega (arith, e) in t);
  }
    where
      e : next_u32 r.next_seq ≡ r.next_seq + 1
      e = next_u32-eq r.next_seq h small

  -- One round of the loop.
  pub round-Inv :
      {r : Collector} (pl : List ℕ)
      → n < 2 ^ 31
      → Inv r
      → lookup r.next_seq r.recv_map ≡ some pl
      → Inv (round ◌++◌ r pl)
  round-Inv {r} pl small v e =
      let (same, bound) = v.held r.next_seq pl e in
      rw same (
        deliver-Inv (erase r.next_seq r.recv_map) small v bound
          (λ k w found. v.held k w (ground (arith, lookup-erase r.next_seq k r.recv_map))))

  drain-Inv : (fuel : ℕ) {r : Collector} → n < 2 ^ 31 → Inv r → Inv (drain ◌++◌ fuel r)
  unfolding drain
  drain-Inv zero small v = v
  drain-Inv (suc fuel) {r} small v = elim (Option-cases (lookup r.next_seq r.recv_map)) [
    | inl e ↦ rw (e, drain) v
    | inr (pl, e) ↦ rw (e, drain) (drain-Inv fuel small (round-Inv pl small v e))
  ]

  pub arrive-Inv :
      {r : Collector} (dseq : ℕ) (base : List ℕ)
      → n < 2 ^ 31
      → dseq ≤ n
      → base ≡ chunk dseq
      → Inv r
      → Inv (arrive ◌++◌ r dseq base)
  arrive-Inv {r} dseq base small bound same v = elim (Bool-cases (dseq == r.next_seq)) [
    | inl e ↦
        unfold arrive in
        rw e (
          let here : dseq ≡ r.next_seq = ==→eq dseq r.next_seq e in
          rw (same, here) (deliver-Inv r.recv_map small v (omega arith) v.held))
    | inr ne ↦
        unfold arrive in
        rw ne (elim (Bool-cases (ltb r.next_seq dseq)) [
          | inl early ↦ rw early (record {
            low = v.low;
            high = v.high;
            held = λ k w e. ground (arith, v.held k w, lookup-insert dseq k base r.recv_map);
            delivered = v.delivered;
          })
          | inr late ↦ rw late v
        ])
  ]

  pub on_recv_data-Inv :
      {r : Collector} (dseq : ℕ) (base : List ℕ)
      → n < 2 ^ 31
      → dseq ≤ n
      → base ≡ chunk dseq
      → Inv r
      → Inv (on_recv_data ◌++◌ r dseq base)
  unfolding on_recv_data
  on_recv_data-Inv {r} dseq base small bound same v =
      drain-Inv _ small (arrive-Inv dseq base small bound same v)

  pub receive_all-Inv :
      (arrivals : List (ℕ × List ℕ)) {r : Collector}
      → n < 2 ^ 31
      → FromStream chunk n arrivals
      → Inv r
      → Inv (receive_all ◌++◌ r arrivals)
  unfolding receive_all
  receive_all-Inv [] small from v = v
  receive_all-Inv ((dseq, base) ∷ rest) small from v =
      receive_all-Inv rest small from.1 (on_recv_data-Inv dseq base small from.0.1 from.0.2 v)

  pub start-Inv : Inv (start [])
  unfolding lookup
  start-Inv = record { low = omega arith; high = omega arith; held = λ k v e. cc; delivered = refl }

-- Whatever packets of a stream of fewer than 2^31 packets arrive, in any order and any number of
-- times, what has been delivered is exactly the first `next_seq - 1` payloads of the stream, in order
-- and once each.
pub delivered_prefix :
    (chunk : ℕ → List ℕ) (n : ℕ) (arrivals : List (ℕ × List ℕ))
    → n < 2 ^ 31
    → FromStream chunk n arrivals
    → let r = receive_all ◌++◌ (start []) arrivals in
      (r.recv_buff ≡ joined chunk (r.next_seq - 1)) × (1 ≤ r.next_seq) × (r.next_seq ≤ n + 1)
delivered_prefix chunk n arrivals small from =
    let v = receive_all-Inv chunk n arrivals small from (start-Inv chunk n) in
    (v.delivered, v.low, v.high)
