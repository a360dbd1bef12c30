-- ===== src/UdpStream/Session/Ahead.antt =====
-- What a receiver does with a payload does not depend on the bytes that it has delivered before.
use adaptive_transport.Common.{
  ℕ, zero, suc, ◌≡◌, refl, sym, ap, ◌∙◌, inl, inr, Bool-cases, Option-cases, List, ◌++◌,
  append_assoc, ◌==◌, ltb, length,
}
use adaptive_transport.UdpStream.Held.{lookup, erase}
use adaptive_transport.UdpStream.Receive.{Receiver, round, next_u32, drain, arrive, on_recv_data}

-- The receiver with some bytes before those that it has delivered.
abbrev pub ahead : List ℕ → Receiver (List ℕ) → Receiver (List ℕ)
ahead pre r = record r { recv_buff = pre ++ r.recv_buff }

drain-ahead :
    (pre : List ℕ) (fuel : ℕ) (r : Receiver (List ℕ))
    → ahead pre (drain ◌++◌ fuel r) ≡ drain ◌++◌ fuel (ahead pre r)
unfolding drain
drain-ahead pre zero r = refl
drain-ahead pre (suc fuel) r = elim (Option-cases (lookup r.next_seq r.recv_map)) [
  | inl e ↦ rw (e, drain) refl
  | inr (pl, e) ↦
      rw (e, drain)
        (drain-ahead pre fuel (round ◌++◌ r pl)
          ∙ ap
              (λ b. drain ◌++◌ fuel (record {
                next_seq = next_u32 r.next_seq;
                recv_map = erase r.next_seq r.recv_map;
                recv_buff = b;
              }))
              (sym (append_assoc pre r.recv_buff pl)))
]

arrive-ahead :
    (pre : List ℕ) (r : Receiver (List ℕ)) (dseq : ℕ) (base : List ℕ)
    → ahead pre (arrive ◌++◌ r dseq base) ≡ arrive ◌++◌ (ahead pre r) dseq base
unfolding arrive
arrive-ahead pre r dseq base = elim (Bool-cases (dseq == r.next_seq)) [
  | inl here ↦ rw here (
      ap (λ b. record { next_seq = next_u32 r.next_seq; recv_map = r.recv_map; recv_buff = b })
        (sym (append_assoc pre r.recv_buff base)))
  | inr other ↦ rw other (elim (Bool-cases (ltb r.next_seq dseq)) [
    | inl early ↦ rw early refl
    | inr late ↦ rw late refl
  ])
]

pub on_recv_data-ahead :
    (pre : List ℕ) (r : Receiver (List ℕ)) (dseq : ℕ) (base : List ℕ)
    → ahead pre (on_recv_data ◌++◌ r dseq base) ≡ on_recv_data ◌++◌ (ahead pre r) dseq base
unfolding on_recv_data
on_recv_data-ahead pre r dseq base =
    drain-ahead pre _ (arrive ◌++◌ r dseq base)
    ∙ ap (λ (x : Receiver (List ℕ)). drain ◌++◌ (length x.recv_map) x)
        (arrive-ahead pre r dseq base)
