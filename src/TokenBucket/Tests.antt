-- ===== src/TokenBucket/Tests.antt =====
-- The bucket with exact arithmetic for the floating-point credit, a burst of 2000 bytes and a million
-- bytes a second.
use adaptive_transport.Common.{
  ℕ, ◌+◌, ◌-◌, ◌*◌, ◌/◌, ◌≤◌, min, ◌≡◌, refl, true, List, [], ◌∷◌, arith,
}
use adaptive_transport.TokenBucket.{consume}
use adaptive_transport.TokenBucket.Rate.{IsCredit, InTime, passed, passed-le, consume-passes}

abbrev exact : ℕ → ℕ → ℕ → ℕ
exact diff rate burst = min burst (diff * rate / 1000000)

exact-IsCredit : IsCredit exact
exact-IsCredit = record {
  capped = λ diff rate burst. omega arith;
  earned = λ diff rate burst. omega arith;
  full = λ diff rate burst. omega arith;
}

-- Two packets at once; a third one too early, and again a millisecond later.
abbrev start : ℕ
start = 3000000000

abbrev calls : List (ℕ × ℕ)
calls = (start, 1000) ∷ (start, 1000) ∷ (start + 500, 1000) ∷ (start + 1000, 1000) ∷ []

calls-InTime : InTime 2000 start (start + 1000) calls
calls-InTime = omega arith

three_pass : passed exact 1000000 2000 0 calls ≡ 3000
unfolding consume
three_pass = refl

passed-le_example :
    passed exact 1000000 2000 0 calls * 1000000 ≤ 2000 * 1000000 + (start + 1000 - start) * 1000000
passed-le_example =
    passed-le exact-IsCredit 1000000 2000 (omega arith) 0 start (start + 1000) calls calls-InTime

consume-passes_example : (consume exact start (start + 1000) 1000 1000000 2000).0 ≡ true
consume-passes_example =
    consume-passes exact-IsCredit 1000000 2000 (omega arith) start (start + 1000) 1000
      (record { late = omega arith; word = omega arith }) (omega arith) (omega arith) (omega arith)
