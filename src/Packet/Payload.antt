-- ===== src/Packet/Payload.antt =====
-- What lies behind the header: the payload of a data packet, the timestamp that an ack carries, and
-- what a datagram's bytes keep on their way from one buffer to another.
use adaptive_transport.Common.{
  ℕ, ◌+◌, ◌-◌, ◌^◌, ◌≤◌, ◌<◌, ◌≡◌, refl, sym, ap, ap₂, ◌∙◌, not, List, [], ◌∷◌, ◌==◌, zero, suc,
  length, take, drop, map_from, overwrite, length-take, length-drop, length-overwrite,
  take-overwrite, drop-map_from, take-map_from, length-map_from, bit_and, arith,
}
use adaptive_transport.Common.Bytes.{
  IsBytes, load_le, store_le, load_le-store_le, length-store_le, store_le-IsBytes, load_le-take,
  take-IsBytes,
}
use adaptive_transport.Packet.{
  Packet, mtu, word, ack_bit, seq_mask, is_ack, seq, ts_recv_ack, set_ts_recv_ack, copy_payload,
  copy_buf, wire, payload, set_size,
}
use adaptive_transport.Packet.Header.{IsValid}

map_from-IsBytes :
    (i : ℕ) (f : List ℕ → List ℕ) (xs : List ℕ)
    → ((ys : List ℕ) → IsBytes ys → IsBytes (f ys))
    → IsBytes xs
    → IsBytes (map_from i f xs)
map_from-IsBytes zero f xs keep h = keep xs h
map_from-IsBytes (suc i) f [] keep h = tt
map_from-IsBytes (suc i) f (x ∷ xs) keep h = (h.0, map_from-IsBytes i f xs keep h.1)

overwrite-IsBytes : (src dst : List ℕ) → IsBytes src → IsBytes dst → IsBytes (overwrite src dst)
overwrite-IsBytes [] dst hs hd = hd
overwrite-IsBytes (x ∷ src) [] hs hd = tt
overwrite-IsBytes (x ∷ src) (y ∷ dst) hs hd = (hs.0, overwrite-IsBytes src dst hs.1 hd.1)

-- `tsRecvAck (v)` for a 64-bit `v` is read back as `v`, and the header is not touched.
pub ts_recv_ack-set_ts_recv_ack :
    {p : Packet} (v : ℕ)
    → IsValid p
    → v < 2 ^ 64
    → (ts_recv_ack (set_ts_recv_ack p v) ≡ v)
      × (seq (set_ts_recv_ack p v) ≡ seq p)
      × (is_ack (set_ts_recv_ack p v) ≡ is_ack p)
unfolding ts_recv_ack set_ts_recv_ack seq is_ack
ts_recv_ack-set_ts_recv_ack {p} v ok h = (
  ap (load_le 8) (drop-map_from 4 (store_le 8 v) p.buf (omega (arith, ok.full)))
      ∙ load_le-store_le 8 v (drop 4 p.buf) (omega (arith, ok.full, length-drop 4 p.buf)) h,
  ap (λ (t : ℕ). bit_and t seq_mask) same,
  ap (λ (t : ℕ). not (bit_and t ack_bit == 0)) same,
)
  where
    same : word (set_ts_recv_ack p v) ≡ word p
    same =
        sym (load_le-take 4 4 (map_from 4 (store_le 8 v) p.buf) (omega arith))
        ∙ ap (load_le 4) (take-map_from 4 (store_le 8 v) p.buf)
        ∙ load_le-take 4 4 p.buf (omega arith)

pub set_ts_recv_ack-IsValid : {p : Packet} (v : ℕ) → IsValid p → IsValid (set_ts_recv_ack p v)
unfolding set_ts_recv_ack
set_ts_recv_ack-IsValid {p} v ok = record {
  full = length-map_from 4 (store_le 8 v) p.buf (length-store_le 8 v) ∙ ok.full;
  bytes = map_from-IsBytes 4 (store_le 8 v) p.buf (store_le-IsBytes 8 v) ok.bytes;
}

pub copy_payload-IsValid :
    {p : Packet} (bytes : List ℕ) → IsBytes bytes → IsValid p → IsValid (copy_payload p bytes)
unfolding copy_payload
copy_payload-IsValid {p} bytes h ok = record {
  full = length-map_from 4 (overwrite bytes) p.buf (length-overwrite bytes) ∙ ok.full;
  bytes = map_from-IsBytes 4 (overwrite bytes) p.buf (λ ys. overwrite-IsBytes bytes ys h) ok.bytes;
}

pub copy_buf-IsValid :
    {p : Packet} (bytes : List ℕ) → IsBytes bytes → IsValid p → IsValid (copy_buf p bytes)
unfolding copy_buf
copy_buf-IsValid {p} bytes h ok = record {
  full = length-overwrite bytes p.buf ∙ ok.full;
  bytes = overwrite-IsBytes bytes p.buf h ok.bytes;
}

pub word-copy_payload : (p : Packet) (bytes : List ℕ) → word (copy_payload p bytes) ≡ word p
unfolding copy_payload
word-copy_payload p bytes =
    sym (load_le-take 4 4 (map_from 4 (overwrite bytes) p.buf) (omega arith))
    ∙ ap (load_le 4) (take-map_from 4 (overwrite bytes) p.buf)
    ∙ load_le-take 4 4 p.buf (omega arith)

-- At most `MTU` bytes copied to `dataPayload ()` are the payload, where the size is theirs and the
-- header's.
pub payload-copy_payload :
    {p : Packet} (bytes : List ℕ)
    → IsValid p
    → length bytes ≤ mtu
    → p.size ≡ 4 + length bytes
    → payload (copy_payload p bytes) ≡ bytes
unfolding payload copy_payload
payload-copy_payload {p} bytes ok h e =
    ap₂ take (omega (arith, e)) (drop-map_from 4 (overwrite bytes) p.buf (omega (arith, ok.full)))
    ∙ take-overwrite bytes (drop 4 p.buf) (omega (arith, ok.full, length-drop 4 p.buf))

take-take : (n : ℕ) (xs : List ℕ) → take n (take n xs) ≡ take n xs
take-take zero xs = refl
take-take (suc n) [] = refl
take-take (suc n) (x ∷ xs) = ap (◌∷◌ x) (take-take n xs)

take-drop-take :
    (k m n : ℕ) (xs : List ℕ) → n ≡ k + m → take m (drop k (take n xs)) ≡ take m (drop k xs)
take-drop-take zero m n xs e = let e' : n ≡ m = omega arith in rw e' (take-take m xs)
take-drop-take (suc k) m zero xs e = absurd (omega arith)
take-drop-take (suc k) m (suc n) [] e = refl
take-drop-take (suc k) m (suc n) (x ∷ xs) e = take-drop-take k m n xs (omega arith)

pub take-overwrite-take :
    (n : ℕ) (src dst : List ℕ)
    → n ≤ length src
    → n ≤ length dst
    → take n (overwrite (take n src) dst) ≡ take n src
take-overwrite-take zero src dst hs hd = refl
take-overwrite-take (suc n) [] dst hs hd = absurd (omega arith)
take-overwrite-take (suc n) (x ∷ src) [] hs hd = absurd (omega arith)
take-overwrite-take (suc n) (x ∷ src) (y ∷ dst) hs hd =
    ap (◌∷◌ x) (take-overwrite-take n src dst (omega arith) (omega arith))

pub wire-IsBytes : {p : Packet} → IsValid p → IsBytes (wire p)
unfolding wire
wire-IsBytes {p} ok = take-IsBytes p.size p.buf ok.bytes

pub length-wire : {p : Packet} → IsValid p → p.size ≤ mtu + 4 → length (wire p) ≡ p.size
unfolding wire
length-wire {p} ok h = omega (arith, length-take p.size p.buf, ok.full)

-- A datagram with a whole header that is received over any other packet's buffer is read there with
-- the sequence number, the ack flag and the payload with which it was sent.
pub wire-received :
    {p q : Packet}
    → IsValid p
    → IsValid q
    → 4 ≤ p.size
    → p.size ≤ mtu + 4
    → let r = set_size (copy_buf q (wire p)) p.size in
      (seq r ≡ seq p) × (is_ack r ≡ is_ack p) × (payload r ≡ payload p)
unfolding wire payload copy_buf set_size seq is_ack
wire-received {p} {q} okp okq lo hi = (
  ap (λ (t : ℕ). bit_and t seq_mask) same,
  ap (λ (t : ℕ). not (bit_and t ack_bit == 0)) same,
  sym (take-drop-take 4 (n - 4) n dst (omega arith))
      ∙ ap (λ xs. take (n - 4) (drop 4 xs)) copied
      ∙ take-drop-take 4 (n - 4) n p.buf (omega arith),
)
  where
    n : ℕ
    n = p.size

    dst : List ℕ
    dst = overwrite (take n p.buf) q.buf

    copied : take n dst ≡ take n p.buf
    copied = take-overwrite-take n p.buf q.buf (omega (arith, okp.full)) (omega (arith, okq.full))

    same : load_le 4 dst ≡ load_le 4 p.buf
    same =
        sym (load_le-take 4 n dst (omega arith))
        ∙ ap (load_le 4) copied
        ∙ load_le-take 4 n p.buf (omega arith)
