-- ===== src/CircBuff/Loop.antt =====
-- The compare-exchange loops of `rptrAdvance` and `wptrAdvance`.
use adaptive_transport.Common.{ℕ, ◌≡◌, refl, List, [], ◌∷◌, ◌++◌, Option, none, some, map}
use adaptive_transport.CircBuff.{next_index}

-- What `compare_exchange_weak` does in one round: it stores, or it fails and the next round loads `now`.
pub data Exchange : Type 0 where
  stored : Exchange
  failed : (now : ℕ) → Exchange

-- The index that the loop stores, if it ends within the rounds given.
pub advance_loop : ℕ → ℕ → ℕ → List Exchange → Option ℕ
advance_loop capacity num idx [] = none
advance_loop capacity num idx (stored ∷ rest) = some (next_index capacity idx num)
advance_loop capacity num idx (failed now ∷ rest) = advance_loop capacity num now rest

-- While no other thread moves the index, a failure is spurious and the next load finds the same index.
abbrev pub spurious : ℕ → List ℕ → List Exchange
spurious idx [] = stored ∷ []
spurious idx (_ ∷ rest) = failed idx ∷ spurious idx rest

-- However often the exchange fails spuriously, the loop ends with the index that one round computes.
pub advance_loop-spurious :
    (capacity num idx : ℕ) (failures : List ℕ)
    → advance_loop capacity num idx (spurious idx failures) ≡ some (next_index capacity idx num)
unfolding advance_loop
advance_loop-spurious capacity num idx [] = refl
advance_loop-spurious capacity num idx (_ ∷ rest) = advance_loop-spurious capacity num idx rest

-- Where other threads store in between, the round that succeeds builds on the last value loaded.
pub advance_loop-failed :
    (capacity num idx now : ℕ) (before : List Exchange)
    → advance_loop capacity num idx
        (map (λ (_ : Exchange). failed now) before ++ failed now ∷ stored ∷ [])
      ≡ some (next_index capacity now num)
unfolding advance_loop
advance_loop-failed capacity num idx now [] = refl
advance_loop-failed capacity num idx now (_ ∷ rest) = advance_loop-failed capacity num now now rest
