-- ===== src/UdpStream/Limiter/Control/Tests.antt =====
-- Fixed-point numbers, with eight decimals, in place of `double`.
use adaptive_transport.Common.{
  ℕ, ◌+◌, ◌-◌, ◌*◌, ◌/◌, ◌%◌, ◌≤◌, ◌≡◌, refl, true, some, List, [], ◌∷◌, ltb, arith,
}
use adaptive_transport.Common.Int.{pos, negsuc, pos_part, ◌+ℤ◌, ◌-ℤ◌}
use adaptive_transport.Ptt.{Ptt}
use adaptive_transport.Ptt.View.{IsValid}
use adaptive_transport.UdpStream.Limiter.Control.{
  Doubles, Control, Inputs, react, limiter_rounds, control_init,
}
use adaptive_transport.UdpStream.Limiter.Control.Bound.{
  IsBounded, Truncates, limiter_rounds-IsBounded,
}
use adaptive_transport.UdpStream.Limiter.Control.Loss.{react-lossy}

-- What is negative is 0.
abbrev fixed : Doubles ℕ
fixed = record {
  number = record {
    add = ◌+◌;
    sub = ◌-◌;
    mul = λ a b. a * b / 100000000;
    div = λ a b. a * 100000000 / b;
    of_int = λ k. 100000000 * k;
    lt = ltb;
    sqrt = λ k. k;
  };
  of_ℤ = λ a. 100000000 * pos_part a;
  to_u32 = λ a. a / 100000000;
  hundredths = λ a. 1000000 * pos_part a;
}

fixed-Truncates : Truncates fixed
fixed-Truncates = record {
  shrinks = λ b small. omega arith;
  fits = λ w up h. ground arith;
  divides = λ a b. ground arith;
  adds = λ a w up. ground arith;
}

abbrev inputs : Inputs ℕ
inputs = record {
  reset_time = 500;
  slow_time = 501;
  drawn = 10000000;
  update_bandwidth = true;
  mtu = 1400;
  uninitialised = negsuc 6;
}

-- Twelve entries that can be read, of which the odd ones were received after 30 us.
abbrev ring : Ptt
ring = record {
  entries = λ i. record { seq = i; ts_sent = 100 + i; ts_recv = (130 + i) * (i % 2) };
  size = 16;
  next_seq = 12;
  head0 = 12;
  head1 = 12;
  tail = 0;
}

ring-IsValid : IsValid ring
ring-IsValid = omega arith

start : IsBounded fixed (control_init fixed 100000 0)
unfolding control_init
start = record { few = omega arith; summed = refl; bounded = omega arith }

abbrev rounds : List (Inputs ℕ × Ptt)
rounds = (inputs, ring) ∷ (inputs, ring) ∷ (inputs, ring) ∷ (inputs, ring) ∷ (inputs, ring) ∷ []

limiter_rounds-IsBounded_example :
    (c : Control ℕ) × (limiter_rounds fixed rounds (control_init fixed 100000 0) ≡ some c)
    × IsBounded fixed c
limiter_rounds-IsBounded_example =
    limiter_rounds-IsBounded fixed rounds (control_init fixed 100000 0) fixed-Truncates
      (ring-IsValid, (ring-IsValid, (ring-IsValid, (ring-IsValid, (ring-IsValid, tt))))) start

-- Four delays of 30 us in the window, and six packets dropped.
abbrev steady : Control ℕ
steady = record {
  iter = 4;
  q = pos 30 ∷ pos 30 ∷ pos 30 ∷ pos 30 ∷ [];
  y0 = pos 120;
  symin0 = pos 30;
  symin1 = pos 0;
  gymin = pos 0;
  cs = pos 0;
  sc = 0;
  state = pos 0;
  bandwidth = 100000;
  ts_updated = 0;
}

slower : (react fixed inputs (pos 34) 6 steady).bandwidth ≡ 75000
unfolding react ◌+ℤ◌ ◌-ℤ◌
slower = refl

faster : (react fixed inputs (pos 30) 0 steady).bandwidth ≡ 46766666
unfolding react ◌+ℤ◌ ◌-ℤ◌
faster = refl

react-lossy_example : (react fixed inputs (pos 34) 6 steady).bandwidth ≤ 100000
react-lossy_example =
    react-lossy fixed inputs (pos 34) 6 steady fixed-Truncates.shrinks (omega arith) (omega arith)
