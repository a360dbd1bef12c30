-- ===== src/Benchmark/Amount.antt =====
-- The server sends what the client waits for, for every size.
use adaptive_transport.Common.{
  ℕ, zero, suc, ◌+◌, ◌-◌, ◌*◌, ◌%◌, ◌^◌, ◌≤◌, ◌<◌, ◌≡◌, refl, ap, ap₂, ◌∙◌, true, inl, inr,
  Bool-cases, some, List, [], ◌∷◌, ◌==◌, replicate, arith,
}
use adaptive_transport.Common.Bytes.{All, load_le, store_le, load_le-store_le}
use adaptive_transport.Benchmark.{
  Request, request, read_request, blocksize, next_block, serve, receive,
}

abbrev pub sum : List ℕ → ℕ
sum [] = 0
sum (n ∷ ns) = n + sum ns

abbrev pub IsBlock : ℕ → Type 0
IsBlock n = (1 ≤ n) × (n ≤ blocksize)

next_block-fits : (t : ℕ) → 0 < t → t < 2 ^ 32 → IsBlock (next_block t) × (next_block t ≤ t)
next_block-fits t some_left small = ground arith

serve_lem :
    (fuel t : ℕ)
    → t ≤ fuel
    → t < 2 ^ 32
    → (ns : List ℕ) × (serve fuel t ≡ some ns) × (sum ns ≡ t) × All IsBlock ns
unfolding serve
serve_lem zero t le small =
    let none_left : (t == 0) ≡ true = ground arith in ([], rw none_left refl, omega arith, tt)
serve_lem (suc fuel) t le small = elim (Bool-cases (t == 0)) [
  | inl none_left ↦ rw none_left ([], refl, ground arith, tt)
  | inr some_left ↦
      let fits = next_block-fits t (ground arith) small in
      let left : (t + 2 ^ 32 - next_block t) % 2 ^ 32 ≡ t - next_block t =
        omega (arith, fits.1, fits.0.0) in
      let (ns, runs, total, h) =
        serve_lem fuel (t - next_block t) (omega (arith, fits.0.0)) (omega arith) in
      rw (some_left, left, runs)
        (next_block t ∷ ns, refl, omega (arith, total, fits.1), (fits.0, h))
]

word_of : (v : ℕ) → v < 2 ^ 32 → load_le 4 (store_le 4 v (replicate 4 0)) ≡ v
word_of v h = load_le-store_le 4 v (replicate 4 0) (omega arith) (omega arith)

abbrev request_of : ℕ → ℕ → ℕ → Request
request_of a b c = record { test_size = a; bandwidth = b; update_bandwidth = c }

read_request-request :
    (r : Request) → r.test_size < 2 ^ 32 → r.bandwidth < 2 ^ 32 → read_request (request r) ≡ r
unfolding read_request request
read_request-request r small1 small2 =
    let flag : r.update_bandwidth + 256 * 0 ≡ r.update_bandwidth = omega arith in
    ap₂ (λ (a b : ℕ). request_of a b (r.update_bandwidth + 256 * 0)) (word_of r.test_size small1)
      (word_of r.bandwidth small2)
    ∙ ap (request_of r.test_size r.bandwidth) flag

-- For every request of 32-bit words: the server reads it as the client meant it, its loop ends, and
-- the strings that it sends, each of at least one byte and at most a block, are together as long as
-- the size asked for, read as a `uint32_t`, also where it is negative.
pub serve-request :
    (r : Request)
    → r.test_size < 2 ^ 32
    → r.bandwidth < 2 ^ 32
    → (read_request (request r) ≡ r)
      × (ns : List ℕ) × (serve r.test_size r.test_size ≡ some ns)
      × (sum ns ≡ r.test_size)
      × All IsBlock ns
serve-request r small1 small2 =
    let (ns, runs, total, h) = serve_lem r.test_size r.test_size (omega arith) small1 in
    (read_request-request r small1 small2, ns, runs, total, h)

-- For looks at the stream that see, together, as many bytes as remain: the client's loop has then nothing left to
-- wait for.
pub receive_lem : (looks : List ℕ) (t : ℕ) → t < 2 ^ 32 → sum looks ≡ t → (receive looks t).1 ≡ 0
unfolding receive
receive_lem [] t small e = omega arith
receive_lem (n ∷ looks) t small e = elim (Bool-cases (t == 0)) [
  | inl none_left ↦ rw none_left refl
  | inr some_left ↦
      let left : (t + 2 ^ 32 - n) % 2 ^ 32 ≡ sum looks = omega arith in
      rw (some_left, left) (receive_lem looks (sum looks) (omega arith) refl)
]
