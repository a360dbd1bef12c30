-- ===== src/Benchmark/Tests.antt =====
-- A test of three blocks and a byte, and one with a negative size.
use adaptive_transport.Common.{ℕ, ◌+◌, ◌*◌, ◌≡◌, refl, some, List, [], ◌∷◌, arith}
use adaptive_transport.Common.Bytes.{All}
use adaptive_transport.Benchmark.{Request, request, read_request, blocksize, serve, receive}
use adaptive_transport.Benchmark.Amount.{sum, IsBlock, serve-request, receive_lem}

abbrev asked : Request
asked = record { test_size = 3 * blocksize + 1; bandwidth = 1000000; update_bandwidth = 1 }

three_and_one : serve 5 asked.test_size ≡ some (blocksize ∷ blocksize ∷ blocksize ∷ 1 ∷ [])
unfolding serve
three_and_one = refl

serve-request_example :
    (read_request (request asked) ≡ asked)
    × (ns : List ℕ) × (serve asked.test_size asked.test_size ≡ some ns)
    × (sum ns ≡ asked.test_size)
    × All IsBlock ns
serve-request_example = serve-request asked (omega arith) (omega arith)

receive_lem_example : (receive (1000 ∷ 0 ∷ 500 ∷ []) 1500).1 ≡ 0
receive_lem_example = receive_lem (1000 ∷ 0 ∷ 500 ∷ []) 1500 (omega arith) (omega arith)
