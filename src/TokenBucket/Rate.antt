-- ===== src/TokenBucket/Rate.antt =====
-- What the bucket lets through in a span of time, and when it lets a packet through.
use native.Mathlib.Nat.{add-mul, div-mul-le_self, div-le_self}
use adaptive_transport.Common.{
  ℕ, ◌+◌, ◌-◌, ◌*◌, ◌/◌, ◌%◌, ◌^◌, ◌≤◌, ◌<◌, min, ◌≡◌, ◌≢◌, refl, ap, ◌∙◌, ◌⊎◌, inl, inr, true,
  false, Bool-cases, List, [], ◌∷◌, ◌==◌, ltb, if◌then◌else◌, arith,
}
use adaptive_transport.TokenBucket.{sub_time, tokens, put_back, consume}

-- What the floating-point expression gives: never more than the burst, nor more than the time has earned,
-- and all of it down to whole bytes.
pub record IsCredit (credit : ℕ → ℕ → ℕ → ℕ) : Type 0 where
  pub capped : (diff rate burst : ℕ) → credit diff rate burst ≤ burst
  pub earned : (diff rate burst : ℕ) → credit diff rate burst * 1000000 ≤ diff * rate
  pub full : (diff rate burst : ℕ) → min burst (diff * rate / 1000000) ≤ credit diff rate burst

-- A time of the clock: so far from its start that a whole burst lies behind it at one byte a second.
pub record IsTime (burst t : ℕ) : Type 0 where
  pub late : burst * 1000000 < t
  pub word : t < 2 ^ 64

-- A span of time up to `last`, split at `t`.
split_at :
    (last t l rate : ℕ) → l ≤ t → t ≤ last → (last - l) * rate ≡ (last - t) * rate + (t - l) * rate
split_at last t l rate h1 h2 =
    let e : last - l ≡ (last - t) + (t - l) = omega arith in
    ap (λ (n : ℕ). n * rate) e ∙ add-mul (last - t) (t - l) rate

-- The time put back is before now, and is worth no more than what is left.
put_back_lem :
    (left t rate burst : ℕ)
    → 0 < rate
    → left ≤ burst
    → IsTime burst t
    → (put_back left t rate ≢ 0)
      × (put_back left t rate ≤ t)
      × ((t - put_back left t rate) * rate ≤ left * 1000000)
unfolding put_back
put_back_lem left t rate burst pos le time = (
  (λ e. omega (arith, e, back, small, time.late)),
  omega (arith, back),
  let same : t - sub_time t (left * 1000000 % 2 ^ 64 / rate) ≡ left * 1000000 / rate =
        omega (arith, back, small, time.late) in
      rw same (div-mul-le_self (left * 1000000) rate),
)
  where
    small : left * 1000000 / rate ≤ left * 1000000
    small = div-le_self (left * 1000000) rate

    fits : left * 1000000 % 2 ^ 64 ≡ left * 1000000
    fits = omega (arith, time.late, time.word)

    back : sub_time t (left * 1000000 % 2 ^ 64 / rate) ≡ t - left * 1000000 / rate
    back = rw fits (omega (arith, small, time.late, time.word))

-- The bytes that a sequence of calls lets through, each call a time and a number of bytes.
abbrev pub passed : (credit : ℕ → ℕ → ℕ → ℕ) (rate burst : ℕ) → ℕ → List (ℕ × ℕ) → ℕ
passed credit rate burst l [] = 0
passed credit rate burst l ((t, bytes) ∷ calls) =
    let r = consume credit l t bytes rate burst in
    (if r.0 then bytes else 0) + passed credit rate burst r.1 calls

module _ {credit : ℕ → ℕ → ℕ → ℕ} (c : IsCredit credit) (rate burst : ℕ) (pos : 0 < rate) where
  tokens-le : (l t : ℕ) → tokens credit l t rate burst ≤ burst
  unfolding tokens
  tokens-le l t = ground (arith, c.capped (sub_time t l) rate burst)

  tokens-earned :
      (l t : ℕ)
      → l ≢ 0
      → l ≤ t
      → t < 2 ^ 64
      → tokens credit l t rate burst * 1000000 ≤ (t - l) * rate
  unfolding tokens
  tokens-earned l t used order word =
      let set : (l == 0) ≡ false = ground arith in
      let diff : sub_time t l ≡ t - l = omega arith in rw (set, diff) (c.earned (t - l) rate burst)

  -- One call, at time `t` after `l`: it lets nothing through and changes nothing, or the time that it
  -- puts back is worth at most the tokens that were there less the bytes.
  consume_lem :
      (l t bytes : ℕ)
      → IsTime burst t
      → ((consume credit l t bytes rate burst ≡ (false, l))
          × (tokens credit l t rate burst < bytes))
        ⊎ ((l' : ℕ) × (consume credit l t bytes rate burst ≡ (true, l'))
            × (l' ≢ 0)
            × (l' ≤ t)
            × (bytes ≤ tokens credit l t rate burst)
            × (bytes * 1000000 + (t - l') * rate ≤ tokens credit l t rate burst * 1000000))
  unfolding consume
  consume_lem l t bytes time = elim (Bool-cases (ltb (tokens credit l t rate burst) bytes)) [
    | inl few ↦ inl (rw few (refl, ground (arith, few)))
    | inr enough ↦
        let le : bytes ≤ tokens credit l t rate burst = ground (arith, enough) in
        let (used, before, worth) =
          put_back_lem (tokens credit l t rate burst - bytes) t rate burst pos
            (omega (arith, tokens-le l t)) time in
        inr (rw enough (_, refl, used, before, le, omega (arith, worth)))
  ]

-- The calls are at times of the clock, in order, from `from` to `last`.
abbrev pub InTime : (burst from last : ℕ) → List (ℕ × ℕ) → Type 0
InTime burst from last [] = from ≤ last
InTime burst from last ((t, bytes) ∷ calls) =
    (from ≤ t) × IsTime burst t × InTime burst t last calls

InTime-le :
    (burst from last : ℕ) (calls : List (ℕ × ℕ)) → InTime burst from last calls → from ≤ last
InTime-le burst from last [] h = h
InTime-le burst from last ((t, bytes) ∷ calls) (h, _, rest) =
    omega (arith, h, InTime-le burst t last calls rest)

module _ {credit : ℕ → ℕ → ℕ → ℕ} (c : IsCredit credit) (rate burst : ℕ) (pos : 0 < rate) where
  passed-earned :
      (l from last : ℕ) (calls : List (ℕ × ℕ))
      → l ≢ 0
      → l ≤ from
      → InTime burst from last calls
      → passed credit rate burst l calls * 1000000 ≤ (last - l) * rate
  passed-earned l from last [] used order h = omega arith
  passed-earned l from last ((t, bytes) ∷ calls) used order (h, time, rest) =
      elim (consume_lem c rate burst pos l t bytes time) [
        | inl (same, few) ↦
            rw same (omega (arith, passed-earned l t last calls used (omega arith) rest))
        | inr (l', same, used', before, le, worth) ↦ rw same (
            omega (
              arith,
              worth,
              tokens-earned c rate burst pos l t used (omega arith) time.word,
              passed-earned l' t last calls used' before rest,
              split_at last t l rate (omega arith) (InTime-le burst t last calls rest),
              split_at last t l' rate before (InTime-le burst t last calls rest),
            ))
      ]

  -- For a positive rate and calls in order at times of the clock (below 2^64 and more microseconds
  -- than a million times the burst), wherever they are placed and whatever the bucket's time is before
  -- the first of them: the bytes that they let through are at most the burst and what the rate gives
  -- for the time from `from` (no later than the first call) to `last`.
  pub passed-le :
      (l from last : ℕ) (calls : List (ℕ × ℕ))
      → InTime burst from last calls
      → passed credit rate burst l calls * 1000000 ≤ burst * 1000000 + (last - from) * rate
  passed-le l from last [] h = omega arith
  passed-le l from last ((t, bytes) ∷ calls) (h, time, rest) =
      elim (consume_lem c rate burst pos l t bytes time) [
        | inl (same, few) ↦ rw same (
            omega (
              arith,
              passed-le l t last calls rest,
              split_at last t from rate h (InTime-le burst t last calls rest),
            ))
        | inr (l', same, used', before, le, worth) ↦ rw same (
            omega (
              arith,
              worth,
              tokens-le c rate burst pos l t,
              passed-earned l' t last calls used' before rest,
              split_at last t from rate h (InTime-le burst t last calls rest),
              split_at last t l' rate before (InTime-le burst t last calls rest),
            ))
      ]

  -- A call for at most a burst at a time of the clock, at a positive rate, is let through once the
  -- rate has earned its bytes since the bucket's time.
  pub consume-passes :
      (l t bytes : ℕ)
      → IsTime burst t
      → l ≤ t
      → bytes ≤ burst
      → bytes * 1000000 ≤ (t - l) * rate
      → (consume credit l t bytes rate burst).0 ≡ true
  unfolding consume tokens
  consume-passes l t bytes time order le earned =
      let enough : ltb (tokens credit l t rate burst) bytes ≡ false = ground (arith, plenty) in
      rw enough refl
    where
      plenty : bytes ≤ tokens credit l t rate burst
      plenty = elim (Bool-cases (l == 0)) [
        | inl new ↦ rw new le
        | inr set ↦
            let diff : sub_time t l ≡ t - l = omega (arith, time.word) in
            rw (set, diff) (omega (arith, c.full (t - l) rate burst, earned))
      ]
