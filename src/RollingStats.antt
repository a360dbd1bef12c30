-- ===== src/RollingStats.antt =====
-- src/RollingStats.hpp and src/RollingStats.cpp: sums and extremes over the last values of a series, and
-- src/RollingFilter.cpp: a function that is applied at each new value.
pub mod Multiset
pub mod Tallies
pub mod Window
mod Tests
use adaptive_transport.Common.{
  ℕ, zero, suc, ◌+◌, ◌-◌, min, Bool, true, false, not, Option, none, some, List, [], ◌∷◌, leb, ltb,
  if◌then◌else◌, update,
}
use adaptive_transport.Common.Int.{ℤ, pos, negsuc, pos_part, ltb_ℤ}
use adaptive_transport.Common.Words.{int_of}
use adaptive_transport.Common.Number.{Number, same}
use adaptive_transport.RollingWindow
use adaptive_transport.RollingWindow.{RollingWindow, next_head, push, resize, at}

-- `m_head`, `m_count`, `m_size` and `m_buf` are kept, stepped and read as a `RollingWindow` does it;
-- `sorted` is the multiset, in its order.
pub record RollingStats (W : Type 0) : Type 0 where
  pub window : RollingWindow W
  pub total : W
  pub mean : W
  pub variance : W
  pub max : W
  pub min : W
  pub sorted : List W

module _ {W : Type 0} where
  -- `m_count >= m_size`, and `std::min (m_count, m_size)`.
  abbrev pub is_full : RollingWindow W → Bool
  is_full w = not (ltb_ℤ (int_of w.count) (pos w.size))

  abbrev pub values_held : RollingWindow W → ℤ
  values_held w = if ltb_ℤ (pos w.size) (int_of w.count) then pos w.size else int_of w.count

module _ {W : Type 0} (n : Number W) where
  -- The conversion of an `int`.
  abbrev pub of_ℤ : ℤ → W
  of_ℤ (pos k) = n.of_int k
  of_ℤ (negsuc k) = n.sub (n.of_int 0) (n.of_int (k + 1))

  -- `m_set.insert`, behind what is not greater.
  unfoldable pub insert : W → List W → List W
  insert v [] = v ∷ []
  insert v (x ∷ xs) = if n.lt v x then v ∷ x ∷ xs else x ∷ insert v xs

  -- `m_set.erase (m_set.find (v))`, for a value that is there. Where it is not, the code's behaviour is
  -- undefined; here nothing changes.
  unfoldable pub erase_one : W → List W → List W
  erase_one v [] = []
  erase_one v (x ∷ xs) = if same n v x then xs else x ∷ erase_one v xs

  -- `RollingStats::RollingStats`; `m_max` and `m_min` are left as the memory is, here `unset`.
  unfoldable pub init : (unset : W) → (ℕ → W) → RollingStats W
  init unset memory = record {
    window = RollingWindow.init memory;
    total = n.of_int 0;
    mean = n.of_int 0;
    variance = n.of_int 0;
    max = unset;
    min = unset;
    sorted = [];
  }

  -- `RollingStats::size (int)`. The total, the mean and the variance are left as they are.
  unfoldable pub set_size : RollingStats W → ℕ → RollingStats W
  set_size s size = record s {
    window = resize (n.of_int 0) s.window size;
    min = n.of_int 0;
    max = n.of_int 0;
    sorted = [];
  }

  -- The loop that is marked slow, from `k` on, for as many rounds as are left.
  unfoldable pub spread : ℕ → RollingWindow W → ℕ → W → W → Option W
  spread zero w k m s = some s
  spread (suc left) w k m s = elim (at w (pos k)) [
    | none ↦ none
    | some x ↦
        let m' = n.add m (n.div (n.sub x m) (n.of_int (k + 1))) in
        spread left w (k + 1) m' (n.add s (n.mul (n.sub x m') (n.sub x m)))
  ]

  -- Taking out the oldest value, once the window is full. `head'` is the slot that is written next.
  unfoldable pub forget : RollingStats W → ℕ → RollingStats W
  unfolding erase_one
  forget s head' =
      let oldval = s.window.buf head' in
      if is_full s.window
      then record s { sorted = erase_one oldval s.sorted; total = n.sub s.total oldval }
      else s

  -- The assignments up to the slow loop.
  unfoldable pub enter : RollingStats W → W → RollingStats W
  unfolding forget insert
  enter s val =
      let s1 = forget s (next_head s.window.size s.window.head) in
      let total' = n.add s1.total val in
      let window' = push s.window val in
      record s1 {
        window = window';
        total = total';
        mean = n.div total' (of_ℤ (values_held window'));
        sorted = insert val s1.sorted;
      }

  -- `operator ()`. `none`: the assertion in `at` fails.
  unfoldable pub note : RollingStats W → W → Option (RollingStats W)
  unfolding enter spread
  note s val =
      let s1 = enter s val in
      let wsize = values_held s1.window in
      if ltb_ℤ (pos 1) wsize
      then elim (spread (pos_part wsize) s1.window 0 (n.of_int 0) (n.of_int 0)) [
        | none ↦ none
        | some sum ↦ some (record s1 {
          variance = n.div sum (n.of_int (pos_part wsize - 1));
          min = if n.lt val s1.min then val else s1.min;
          max = if n.lt s1.max val then val else s1.max;
        })
      ]
      else some (record s1 { min = val; max = val })

  -- `operator ()` for each value of a series, the newest first in the list.
  unfoldable pub note_all : RollingStats W → List W → Option (RollingStats W)
  note_all s [] = some s
  note_all s (v ∷ vs) = elim (note_all s vs) [ none ↦ none | some s' ↦ note s' v ]

  unfoldable pub populated : RollingStats W → Bool
  populated s = is_full s.window

  unfoldable pub stdev : RollingStats W → W
  stdev s = n.sqrt s.variance

  -- `wmin`: the first of the multiset, where it is not empty.
  unfoldable pub wmin : RollingStats W → Option W
  wmin s = elim s.sorted [ [] ↦ none | x ∷ _ ↦ some x ]

-- `RollingFilter`; `func` may write to its registers and its window.
pub record RollingFilter (W : Type 0) : Type 0 where
  pub func : RollingWindow W → List W → W × List W × RollingWindow W
  pub val : W
  pub reg : List W
  pub wnd : RollingWindow W

-- `RollingFilter::operator () (double)`.
unfoldable pub filter : {W : Type 0} → RollingFilter W → W → RollingFilter W
filter f v =
    let (val', reg', wnd') = f.func (push f.wnd v) f.reg in
    record f { val = val'; reg = reg'; wnd = wnd' }

-- `RollingFilter::RollingFilter`, and the setter of its size.
unfoldable pub new_filter :
    {W : Type 0}
    → W
    → (RollingWindow W → List W → W × List W × RollingWindow W)
    → (ℕ → W)
    → RollingFilter W
new_filter nought func memory = record {
  func = func;
  val = nought;
  reg = nought ∷ nought ∷ nought ∷ nought ∷ [];
  wnd = RollingWindow.init memory;
}

unfoldable pub size_filter : {W : Type 0} → W → RollingFilter W → ℕ → RollingFilter W
size_filter nought f size = record f { wnd = resize nought f.wnd size }
