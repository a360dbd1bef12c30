-- ===== src/UdpStream/Receive/Buffer.antt =====
-- The receiver over its ring buffer delivers what the receiver over a plain list delivers.
use adaptive_transport.Common.{
  ℕ, zero, suc, ◌+◌, ◌<◌, ◌≡◌, refl, ap, ◌∙◌, inl, inr, Option-cases, Bool-cases, List, ◌++◌, ◌==◌,
  ltb, length, length-append, arith,
}
use adaptive_transport.CircBuff.{CircBuff, write_bytes, wptr_advance, used}
use adaptive_transport.CircBuff.Refine.{
  IsValid, append, append-IsValid, contents, length-contents, contents-append,
}
use adaptive_transport.UdpStream.Held.{
  Held, lookup, erase, held_bytes, held_bytes-erase, held_bytes-insert,
}
use adaptive_transport.UdpStream.Receive.{
  Receiver, next_u32, round, drain, arrive, on_recv_data, on_recv,
}

-- The receiver with its buffer seen as the bytes that wait to be read.
abbrev pub view : Receiver CircBuff → Receiver (List ℕ)
view r = record { next_seq = r.next_seq; recv_map = r.recv_map; recv_buff = contents r.recv_buff }

capacity-append : (c : CircBuff) (bytes : List ℕ) → (append c bytes).capacity ≡ c.capacity
unfolding write_bytes wptr_advance
capacity-append c bytes = refl

-- The buffer has room for `extra` bytes beside all that the map holds.
pub record Fits (r : Receiver CircBuff) (extra : ℕ) : Type 0 where
  pub valid : IsValid r.recv_buff
  pub room : used r.recv_buff + held_bytes r.recv_map + extra < r.recv_buff.capacity

used-append_fits :
    {c : CircBuff} (bytes : List ℕ)
    → IsValid c
    → used c + length bytes < c.capacity
    → used (append c bytes) ≡ used c + length bytes
used-append_fits {c} bytes v room = omega (
  arith,
  length-contents (append c bytes),
  ap length (contents-append bytes v room),
  length-append (contents c) bytes,
  length-contents c,
)

-- Appending `bytes` out of the room that was kept for them.
put-Fits :
    (c : CircBuff) (bytes : List ℕ) (s : ℕ) (m : Held)
    → IsValid c
    → used c + length bytes + held_bytes m < c.capacity
    → Fits (record { next_seq = s; recv_map = m; recv_buff = append c bytes }) 0
put-Fits c bytes s m v room = record {
  valid = append-IsValid bytes v (omega arith);
  room = omega (arith, used-append_fits bytes v (omega arith), capacity-append c bytes);
}

drain-view :
    (fuel : ℕ) (r : Receiver CircBuff)
    → Fits r 0
    → (view (drain append fuel r) ≡ drain ◌++◌ fuel (view r)) × Fits (drain append fuel r) 0
unfolding drain
drain-view zero r f = (refl, f)
drain-view (suc fuel) r f = elim (Option-cases (lookup r.next_seq r.recv_map)) [
  | inl e ↦ rw (e, drain) (refl, f)
  | inr (pl, e) ↦
      let bound = held_bytes-erase r.next_seq r.recv_map e in
      let (same, f') = drain-view fuel (round append r pl) (
        put-Fits r.recv_buff pl (next_u32 r.next_seq) (erase r.next_seq r.recv_map) f.valid
          (omega (arith, f.room))) in
      rw (e, drain)
        (
          same
              ∙ ap
                  (λ b. drain ◌++◌ fuel (record {
                    next_seq = next_u32 r.next_seq;
                    recv_map = erase r.next_seq r.recv_map;
                    recv_buff = b;
                  }))
                  (contents-append pl f.valid (omega (arith, f.room))),
          f',
        )
]

arrive-view :
    (r : Receiver CircBuff) (dseq : ℕ) (base : List ℕ)
    → Fits r (length base)
    → (view (arrive append r dseq base) ≡ arrive ◌++◌ (view r) dseq base)
      × Fits (arrive append r dseq base) 0
unfolding arrive
arrive-view r dseq base f = elim (Bool-cases (dseq == r.next_seq)) [
  | inl here ↦ rw here (
    ap (λ b. record { next_seq = next_u32 r.next_seq; recv_map = r.recv_map; recv_buff = b })
        (contents-append base f.valid (omega (arith, f.room))),
    put-Fits r.recv_buff base (next_u32 r.next_seq) r.recv_map f.valid (omega (arith, f.room)),
  )
  | inr other ↦ rw other (elim (Bool-cases (ltb r.next_seq dseq)) [
    | inl early ↦ rw early (
      refl,
      record {
        valid = f.valid;
        room = omega (arith, f.room, held_bytes-insert dseq base r.recv_map);
      },
    )
    | inr late ↦ rw late (refl, record { valid = f.valid; room = omega (arith, f.room) })
  ])
]

-- As long as the buffer has room for the payload that arrives and for all payloads held, `onRecvData`
-- over the ring buffer changes the sequence number, the map and the bytes that wait to be read exactly
-- as it does over a plain list, and keeps that room for what is still held.
pub on_recv_refines :
    (r : Receiver CircBuff) (dseq : ℕ) (base : List ℕ)
    → Fits r (length base)
    → (view (on_recv r dseq base) ≡ on_recv_data ◌++◌ (view r) dseq base)
      × Fits (on_recv r dseq base) 0
unfolding on_recv on_recv_data
on_recv_refines r dseq base f =
    let (same, f') = arrive-view r dseq base f in
    let r' = arrive append r dseq base in
    let (drained, f'') = drain-view (length r'.recv_map) r' f' in
    (drained ∙ ap (λ (x : Receiver (List ℕ)). drain ◌++◌ (length x.recv_map) x) same, f'')
