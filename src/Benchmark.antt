-- ===== src/Benchmark.antt =====
-- src/test_client.cpp and src/test_server.cpp: the client asks for a number of bytes, and the server sends
-- as many. What the waiting loops see is given, one result of `readable ()` for each look. Logs, clocks and the
-- contents of the bytes sent are left out: `populateRandom` does nothing.
pub mod Amount
mod Tests
use adaptive_transport.Common.{
  ℕ, zero, suc, ◌+◌, ◌-◌, ◌*◌, ◌%◌, ◌^◌, Bool, true, false, ◌&&◌, Option, none, some, List, [], ◌∷◌,
  ◌++◌, ◌==◌, ltb, if◌then◌else◌, drop, replicate,
}
use adaptive_transport.Common.Bytes.{load_le, store_le}

-- `testSize`, the bandwidth and the flag, as words.
pub record Request : Type 0 where
  pub test_size : ℕ
  pub bandwidth : ℕ
  pub update_bandwidth : ℕ

-- The string that the client sends.
unfoldable pub request : Request → List ℕ
request r =
    store_le 4 r.test_size (replicate 4 0)
    ++ store_le 4 r.bandwidth (replicate 4 0)
    ++ r.update_bandwidth ∷ []

-- What the server reads, once 9 bytes can be read.
unfoldable pub read_request : List ℕ → Request
read_request bytes = record {
  test_size = load_le 4 bytes;
  bandwidth = load_le 4 (drop 4 bytes);
  update_bandwidth = load_le 1 (drop 8 bytes);
}

abbrev pub blocksize : ℕ
blocksize = 1024 * 128

-- `(testSize < blocksize) ? testSize : blocksize`: a negative `int32_t` is a large `size_t`.
abbrev pub next_block : ℕ → ℕ
next_block test_size =
    if ltb test_size (2 ^ 31) && ltb test_size blocksize then test_size else blocksize

-- The server's loop: the sizes of the strings that it sends.
unfoldable pub serve : ℕ → (test_size : ℕ) → Option (List ℕ)
serve zero test_size = if test_size == 0 then some [] else none
serve (suc fuel) test_size =
    let n = next_block test_size in
    let rest = serve fuel ((test_size + 2 ^ 32 - n) % 2 ^ 32) in
    if test_size == 0 then some [] else elim rest [ none ↦ none | some ns ↦ some (n ∷ ns) ]

-- How the client's loop stands when the looks are used up or it has ended: the looks left, and the bytes that
-- remain.
unfoldable pub receive : List ℕ → (bytes_remaining : ℕ) → List ℕ × ℕ
receive [] bytes_remaining = ([], bytes_remaining)
receive (n ∷ looks) bytes_remaining =
    let rest = receive looks ((bytes_remaining + 2 ^ 32 - n) % 2 ^ 32) in
    if bytes_remaining == 0 then (n ∷ looks, 0) else rest
