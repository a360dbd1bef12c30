-- ===== src/CircBuff/Tests.antt =====
-- Runs of the ring of bytes, and the theorems about it at a ring that goes round its end.
use adaptive_transport.Common.{ℕ, ◌+◌, ◌%◌, ◌≡◌, refl, some, List, [], ◌∷◌, arith}
use adaptive_transport.CircBuff.{CircBuff, next_index, used, wptr_advance, write_bytes}
use adaptive_transport.CircBuff.Loop.{advance_loop, spurious, advance_loop-spurious}
use adaptive_transport.CircBuff.Refine.{IsValid, append, contents, used-append}

-- Eight bytes, of which four are held: those at 6, 7, 0 and 1.
abbrev wrapped : CircBuff
wrapped = record { capacity = 8; mem = λ i. i + 10; widx = 2; ridx = 6 }

wrapped-IsValid : IsValid wrapped
wrapped-IsValid = record {
  power = (3, refl);
  nonempty = omega arith;
  small = omega arith;
  write_in = omega arith;
  read_in = omega arith;
}

used-wrapped : used wrapped ≡ 4
unfolding used
used-wrapped = refl

contents-wrapped : contents wrapped ≡ 16 ∷ 17 ∷ 10 ∷ 11 ∷ []
unfolding contents used
contents-wrapped = refl

advance_loop-spurious_example :
    advance_loop 8 5 6 (spurious 6 (0 ∷ 0 ∷ [])) ≡ some (next_index 8 6 5)
advance_loop-spurious_example = advance_loop-spurious 8 5 6 (0 ∷ 0 ∷ [])

abbrev four : List ℕ
four = 1 ∷ 2 ∷ 3 ∷ 4 ∷ []

-- Four more bytes fill the ring, which then reads as empty.
used-append_example : used (append wrapped four) ≡ (used wrapped + 4) % 8
used-append_example = used-append four wrapped-IsValid (omega arith)

filled_reads_empty : used (append wrapped four) ≡ 0
unfolding used write_bytes wptr_advance
filled_reads_empty = refl
