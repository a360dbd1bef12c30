-- ===== src/RollingStats/Tests.antt =====
-- Statistics over whole numbers.
use adaptive_transport.Common.{ℕ, ◌≡◌, refl, Option, none, some, List, [], ◌∷◌, map, arith}
use adaptive_transport.Common.Int.{◌-ℤ◌, ◌+ℤ◌}
use adaptive_transport.Common.Number.{whole, whole-IsExact}
use adaptive_transport.RollingWindow
use adaptive_transport.RollingWindow.{RollingWindow}
use adaptive_transport.RollingStats.{RollingStats, set_size, note, note_all}
use adaptive_transport.RollingStats.Multiset.{sum}
use adaptive_transport.RollingStats.Window.{StatsOf, IsCountable, note_all-StatsOf}

abbrev fresh : RollingStats ℕ
fresh = record {
  window = record { head = 0; count = 0; size = 0; buf = λ _. 0 };
  total = 0;
  mean = 0;
  variance = 0;
  max = 0;
  min = 0;
  sorted = [];
}

-- The values 1, 5, 3 and 4, in a window of three.
abbrev four : List ℕ
four = 4 ∷ 3 ∷ 5 ∷ 1 ∷ []

abbrev total_sorted : Option (RollingStats ℕ) → ℕ × List ℕ
total_sorted none = (0, [])
total_sorted (some s) = (s.total, s.sorted)

sorted_four : total_sorted (note_all whole (set_size whole fresh 3) four) ≡ (12, 3 ∷ 4 ∷ 5 ∷ [])
unfolding note_all set_size note RollingWindow.push RollingWindow.resize RollingWindow.at ◌-ℤ◌ ◌+ℤ◌
sorted_four = refl

four-IsCountable : IsCountable four
unfolding sum
four-IsCountable = record { few = omega arith; summed = omega arith }

note_all-StatsOf_example :
    (s : RollingStats ℕ) × (note_all whole (set_size whole fresh 3) (map whole.of_int four)
      ≡ some s)
    × StatsOf whole-IsExact s fresh.window 3 four
note_all-StatsOf_example =
    note_all-StatsOf whole-IsExact fresh 3 four (omega arith) four-IsCountable refl
