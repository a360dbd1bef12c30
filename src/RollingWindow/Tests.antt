-- ===== src/RollingWindow/Tests.antt =====
-- tester.cpp: a window of nine, and three values.
use adaptive_transport.Common.{ℕ, ◌≡◌, refl, some, [], ◌∷◌, arith}
use adaptive_transport.Common.Int.{pos, negsuc, ◌-ℤ◌}
use adaptive_transport.RollingWindow.{RollingWindow, resize, push, at}
use adaptive_transport.RollingWindow.Recent.{get_or, pushed, at_recent}

abbrev empty : RollingWindow ℕ
empty = record { head = 0; count = 0; size = 0; buf = λ _. 0 }

newest : at (push (push (push (resize 0 empty 9) 15) 16) 17) (pos 1) ≡ some 16
unfolding at push resize ◌-ℤ◌
newest = refl

-- One step ahead of the newest value is the oldest.
oldest : at (pushed 0 empty 3 (3 ∷ 2 ∷ 1 ∷ [])) (negsuc 0) ≡ some 1
unfolding at pushed ◌-ℤ◌
oldest = refl

at_recent_example :
    at (pushed 0 empty 3 (4 ∷ 3 ∷ 2 ∷ 1 ∷ [])) (pos 2) ≡ some (get_or 0 (4 ∷ 3 ∷ 2 ∷ 1 ∷ []) 2)
at_recent_example = at_recent 0 empty 3 (4 ∷ 3 ∷ 2 ∷ 1 ∷ []) 2 (omega arith)
