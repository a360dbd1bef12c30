-- ===== src/UdpStream/Receive/Complete.antt =====
-- A packet that has arrived once is delivered as soon as all before it have arrived.
use adaptive_transport.Common.{
  ℕ, zero, suc, ◌+◌, ◌-◌, ◌^◌, ◌≤◌, ◌<◌, ◌≡◌, ◌≢◌, refl, ap, ◌∙◌, ◌⊎◌, inl, inr, none, Option-cases,
  List, [], ◌∷◌, ◌++◌, length, arith, ℕ_discrete, dec_le,
}
use adaptive_transport.UdpStream.Held.{
  lookup, lookup-erase, lookup-insert, length-erase-lt, lookup-nil,
}
use adaptive_transport.UdpStream.Receive.{
  Receiver, start, round, drain, arrive, on_recv_data, receive_all,
}
use adaptive_transport.UdpStream.Receive.Order.{
  joined, Collector, FromStream, Inv, round-Inv, arrive-Inv, on_recv_data-Inv, receive_all-Inv,
  start-Inv,
}

-- The loop runs until the map has no entry for `next_seq`: its fuel, the size of the map, suffices.
drain_ends :
    {B : Type 0} (put : B → List ℕ → B) (fuel : ℕ) (r : Receiver B)
    → length r.recv_map ≤ fuel
    → let r' = drain put fuel r in lookup r'.next_seq r'.recv_map ≡ none
unfolding drain
drain_ends put zero r h = lookup-nil r.next_seq r.recv_map h
drain_ends put (suc fuel) r h = elim (Option-cases (lookup r.next_seq r.recv_map)) [
  | inl e ↦ rw (e, drain) e
  | inr (pl, e) ↦
      rw (e, drain) (drain_ends put fuel _ (omega (arith, length-erase-lt r.next_seq r.recv_map e)))
]

-- After any call of `onRecvData`, over any buffer, no payload that could be delivered is left in the
-- map.
pub on_recv_data_ends :
    {B : Type 0} (put : B → List ℕ → B) (r : Receiver B) (dseq : ℕ) (base : List ℕ)
    → let r' = on_recv_data put r dseq base in lookup r'.next_seq r'.recv_map ≡ none
unfolding on_recv_data
on_recv_data_ends put r dseq base = drain_ends put _ (arrive put r dseq base) (omega arith)

-- Packet `k` is delivered or held.
abbrev pub IsKept : {B : Type 0} → Receiver B → ℕ → Type 0
IsKept r k = (k < r.next_seq) ⊎ (lookup k r.recv_map ≢ none)

-- Packet `k` is among the arrivals.
abbrev pub Arrives : ℕ → List (ℕ × List ℕ) → Type 0
Arrives k [] = ⊥
Arrives k ((dseq, base) ∷ rest) = (k ≡ dseq) ⊎ Arrives k rest

module _ (chunk : ℕ → List ℕ) (n : ℕ) (small : n < 2 ^ 31) where
  round-IsKept :
      (r : Collector) (pl : List ℕ) (k : ℕ)
      → r.next_seq ≤ n
      → IsKept r k
      → IsKept (round ◌++◌ r pl) k
  round-IsKept r pl k bound (inl done) = inl (omega arith)
  round-IsKept r pl k bound (inr e) = elim (ℕ_discrete k r.next_seq) [
    | yes here ↦ inl (omega arith)
    | no other ↦ inr (ground (arith, lookup-erase r.next_seq k r.recv_map))
  ]

  drain-IsKept :
      (fuel : ℕ) (r : Collector) (k : ℕ) → Inv chunk n r → IsKept r k → IsKept (drain ◌++◌ fuel r) k
  unfolding drain
  drain-IsKept zero r k v kept = kept
  drain-IsKept (suc fuel) r k v kept = elim (Option-cases (lookup r.next_seq r.recv_map)) [
    | inl e ↦ rw (e, drain) kept
    | inr (pl, e) ↦
        rw (e, drain)
          (drain-IsKept fuel (round ◌++◌ r pl) k (round-Inv chunk n pl small v e)
            (round-IsKept r pl k (v.held r.next_seq pl e).1 kept))
  ]

  -- What was kept stays kept, and the packet that arrives is kept.
  arrive-IsKept :
      (r : Collector) (dseq : ℕ) (base : List ℕ) (k : ℕ)
      → r.next_seq ≤ n + 1
      → dseq ≤ n
      → IsKept r k ⊎ (k ≡ dseq)
      → IsKept (arrive ◌++◌ r dseq base) k
  unfolding arrive
  arrive-IsKept r dseq base k high bound kept =
      ground (arith, small, lookup-insert dseq k base r.recv_map)

  pub on_recv_data-IsKept :
      (r : Collector) (dseq : ℕ) (base : List ℕ) (k : ℕ)
      → Inv chunk n r
      → dseq ≤ n
      → base ≡ chunk dseq
      → IsKept r k ⊎ (k ≡ dseq)
      → IsKept (on_recv_data ◌++◌ r dseq base) k
  unfolding on_recv_data
  on_recv_data-IsKept r dseq base k v bound same kept =
      drain-IsKept _ (arrive ◌++◌ r dseq base) k (arrive-Inv chunk n dseq base small bound same v)
        (arrive-IsKept r dseq base k v.high bound kept)

  receive_all-IsKept :
      (arrivals : List (ℕ × List ℕ)) (r : Collector) (k : ℕ)
      → Inv chunk n r
      → FromStream chunk n arrivals
      → IsKept r k ⊎ Arrives k arrivals
      → IsKept (receive_all ◌++◌ r arrivals) k
  unfolding receive_all
  receive_all-IsKept [] r k v from (inl kept) = kept
  receive_all-IsKept [] r k v from (inr never) = absurd never
  receive_all-IsKept ((dseq, base) ∷ rest) r k v from kept =
      receive_all-IsKept rest (on_recv_data ◌++◌ r dseq base) k
        (on_recv_data-Inv chunk n dseq base small from.0.1 from.0.2 v) from.1 (now kept)
    where
      now :
          IsKept r k ⊎ Arrives k ((dseq, base) ∷ rest)
          → IsKept (on_recv_data ◌++◌ r dseq base) k ⊎ Arrives k rest
      now (inl old) = inl (on_recv_data-IsKept r dseq base k v from.0.1 from.0.2 (inl old))
      now (inr (inl here)) = inl (on_recv_data-IsKept r dseq base k v from.0.1 from.0.2 (inr here))
      now (inr (inr later)) = inr later

receive_all_ends :
    (arrivals : List (ℕ × List ℕ)) (r : Collector)
    → lookup r.next_seq r.recv_map ≡ none
    → let r' = receive_all ◌++◌ r arrivals in lookup r'.next_seq r'.recv_map ≡ none
unfolding receive_all
receive_all_ends [] r e = e
receive_all_ends ((dseq, base) ∷ rest) r e =
    receive_all_ends rest (on_recv_data ◌++◌ r dseq base) (on_recv_data_ends ◌++◌ r dseq base)

-- Once each of the `n` packets of a stream (fewer than 2^31) and no other has arrived at least once,
-- in whatever order and however often, the whole stream has been delivered, and nothing else.
pub delivered_all :
    (chunk : ℕ → List ℕ) (n : ℕ) (arrivals : List (ℕ × List ℕ))
    → n < 2 ^ 31
    → FromStream chunk n arrivals
    → ((k : ℕ) → 1 ≤ k → k ≤ n → Arrives k arrivals)
    → (receive_all ◌++◌ (start []) arrivals).recv_buff ≡ joined chunk n
delivered_all chunk n arrivals small from all =
    v.delivered ∙ ap (joined chunk) (last (dec_le r.next_seq n))
  where
    r : Collector
    r = receive_all ◌++◌ (start []) arrivals

    v : Inv chunk n r
    v = receive_all-Inv chunk n arrivals small from (start-Inv chunk n)

    ends : lookup r.next_seq r.recv_map ≡ none
    ends = receive_all_ends arrivals (start []) (unfold lookup in refl)

    kept : r.next_seq ≤ n → IsKept r r.next_seq
    kept h =
        receive_all-IsKept chunk n small arrivals (start []) r.next_seq (start-Inv chunk n) from
          (inr (all r.next_seq v.low h))

    stuck : IsKept r r.next_seq → ⊥
    stuck (inl h) = omega arith
    stuck (inr h) = h ends

    last : Dec (r.next_seq ≤ n) → r.next_seq - 1 ≡ n
    last (yes h) = absurd (stuck (kept h))
    last (no h) = omega (arith, v.high)
