-- ===== src/Address/Decimal.antt =====
-- The decimal text of a number is read back as the number.
use adaptive_transport.Common.{
  ℕ, zero, suc, ◌+◌, ◌/◌, ◌%◌, ◌≤◌, ◌<◌, ◌≡◌, refl, ◌∙◌, ap, ◌||◌, false, inl, inr, Bool-cases,
  List, [], ◌∷◌, ltb, arith,
}
use adaptive_transport.Address.{ok, digits_value, stoi, digits_from, decimal}

digits_value-digits_from :
    (fuel n : ℕ) (text : List ℕ)
    → n < fuel
    → digits_value (digits_from fuel n text) 0 ≡ digits_value text n
unfolding digits_value digits_from
digits_value-digits_from zero n text enough = absurd (omega arith)
digits_value-digits_from (suc fuel) n text enough = elim (Bool-cases (ltb n 10)) [
  | inl last ↦ rw last (ground arith)
  | inr more ↦
      rw more (
        digits_value-digits_from fuel (n / 10) ((48 + n % 10) ∷ text) (ground arith) ∙ ground arith)
]

digits_from-starts :
    (fuel n : ℕ) (text : List ℕ)
    → n < fuel
    → (c : ℕ) × (rest : List ℕ) × (digits_from fuel n text ≡ c ∷ rest) × (48 ≤ c) × (c ≤ 57)
unfolding digits_from
digits_from-starts zero n text enough = absurd (omega arith)
digits_from-starts (suc fuel) n text enough = elim (Bool-cases (ltb n 10)) [
  | inl last ↦ (48 + n, text, rw last refl, omega arith, ground arith)
  | inr more ↦ rw more (digits_from-starts fuel (n / 10) ((48 + n % 10) ∷ text) (ground arith))
]

stoi-cons :
    (text rest : List ℕ) (c : ℕ)
    → text ≡ c ∷ rest
    → 48 ≤ c
    → c ≤ 57
    → stoi text ≡ ok (digits_value text 0)
unfolding stoi
stoi-cons text rest c starts lo hi =
    let digit : (ltb c 48 || ltb 57 c) ≡ false = ground arith in rw starts (rw digit refl)

-- Every number's text is read as that number.
pub stoi-decimal : (n : ℕ) → stoi (decimal n) ≡ ok n
unfolding decimal
stoi-decimal n =
    let (c, rest, starts, lo, hi) = digits_from-starts (suc n) n [] (omega arith) in
    stoi-cons (digits_from (suc n) n []) rest c starts lo hi
    ∙ ap ok (digits_value-digits_from (suc n) n [] (omega arith) ∙ (unfold digits_value in refl))
