-- ===== src/FileDescriptor/Ownership.antt =====
-- A program's objects, as they are made, moved, used and destroyed: who closes what, and how often.
use adaptive_transport.Common.{
  ℕ, ◌+◌, ◌≡◌, refl, sym, ap, ◌∙◌, Bool, true, false, none, some, List, [], ◌∷◌, ◌++◌, ◌==◌,
  if◌then◌else◌, length, arith,
}
use adaptive_transport.Common.Int.{ℤ, pos, negsuc}
use adaptive_transport.Common.Calls.{ReadCall, WriteCall, read_failed, read_bytes}
use adaptive_transport.FileDescriptor.{
  FileDescriptor, Result, ok, init, move, destroy, read, write_part, checked_read, checked_write,
  set_eof,
}

-- The objects there are, the numbers that the system has given for an object, and those that were closed.
pub record World : Type 0 where
  pub live : List FileDescriptor
  pub opened : List ℕ
  pub closed : List ℕ

abbrev pub number : ℤ → List ℕ
number (pos k) = k ∷ []
number (negsuc k) = []

abbrev pub closes : FileDescriptor → List ℕ
closes d = elim (destroy d) [ none ↦ [] | some fd ↦ number fd ]

infix 40 ◌⟶◌
pub data ◌⟶◌ : World → World → Type 0 where
  opens : (w : World) (k : ℕ) → w ⟶ record w { live = init (pos k) ∷ w.live; opened = k ∷ w.opened }
  moves :
      (xs : List FileDescriptor) (d : FileDescriptor) (ys : List FileDescriptor)
      (opened closed : List ℕ)
      → record { live = xs ++ d ∷ ys; opened = opened; closed = closed }
        ⟶ record { live = (move d).0 ∷ xs ++ (move d).1 ∷ ys; opened = opened; closed = closed }
  reads :
      (xs : List FileDescriptor) (d d' : FileDescriptor) (ys : List FileDescriptor)
      (opened closed : List ℕ)
      → (call : ReadCall) (bytes : List ℕ) → read d call ≡ ok (bytes, d')
      → record { live = xs ++ d ∷ ys; opened = opened; closed = closed }
        ⟶ record { live = xs ++ d' ∷ ys; opened = opened; closed = closed }
  writes :
      (xs : List FileDescriptor) (d d' : FileDescriptor) (ys : List FileDescriptor)
      (opened closed : List ℕ)
      → (call : WriteCall) (left left' bytes : List ℕ)
      → write_part d left call ≡ ok (left', bytes, d')
      → record { live = xs ++ d ∷ ys; opened = opened; closed = closed }
        ⟶ record { live = xs ++ d' ∷ ys; opened = opened; closed = closed }
  destroys :
      (xs : List FileDescriptor) (d : FileDescriptor) (ys : List FileDescriptor)
      (opened closed : List ℕ)
      → record { live = xs ++ d ∷ ys; opened = opened; closed = closed }
        ⟶ record { live = xs ++ ys; opened = opened; closed = closes d ++ closed }

infix 40 ◌⟶*◌
pub data ◌⟶*◌ (w : World) : World → Type 0 where
  here : w ⟶* w
  next : {u v : World} → w ⟶* u → u ⟶ v → w ⟶* v

abbrev pub start : World
start = record { live = []; opened = []; closed = [] }

-- How often a number is in a list, and how many objects own it.
abbrev pub count : ℕ → List ℕ → ℕ
count k [] = 0
count k (x ∷ xs) = (if x == k then 1 else 0) + count k xs

abbrev pub owners : ℕ → List FileDescriptor → ℕ
owners k [] = 0
owners k (d ∷ ds) = count k (number d.fd) + owners k ds

owners-append :
    (k : ℕ) (xs ys : List FileDescriptor) → owners k (xs ++ ys) ≡ owners k xs + owners k ys
owners-append k [] ys = omega arith
owners-append k (d ∷ xs) ys = omega (arith, owners-append k xs ys)

count-append : (k : ℕ) (xs ys : List ℕ) → count k (xs ++ ys) ≡ count k xs + count k ys
count-append k [] ys = omega arith
count-append k (x ∷ xs) ys = omega (arith, count-append k xs ys)

-- An object closes what it owns.
closes-eq : (d : FileDescriptor) → closes d ≡ number d.fd
unfolding destroy
closes-eq d = by_sign d.fd
  where
    by_sign : (fd : ℤ) → closes (record d { fd = fd }) ≡ number fd
    by_sign (pos k) = ground arith
    by_sign (negsuc k) = ground arith

-- The number that a call's object has, if the call returns one.
abbrev fd_of : {A : Type 0} → ℤ → Result (A × FileDescriptor) → ℤ
fd_of fd (ok (a, d)) = d.fd
fd_of fd other = fd

fd-read :
    (d d' : FileDescriptor) (call : ReadCall) (bytes : List ℕ)
    → read d call ≡ ok (bytes, d')
    → d'.fd ≡ d.fd
unfolding read checked_read
fd-read d d' call bytes e = sym (ap (fd_of {A = List ℕ} d.fd) e) ∙ by_call call
  where
    by_size : (b : Bool) → (if b then set_eof d else d).fd ≡ d.fd
    by_size true = refl
    by_size false = refl

    by_call : (c : ReadCall) → fd_of {A = List ℕ} d.fd (read d c) ≡ d.fd
    by_call (read_failed errno) = refl
    by_call (read_bytes bs) = by_size (length bs == 0)

fd-write_part :
    (d d' : FileDescriptor) (call : WriteCall) (left left' bytes : List ℕ)
    → write_part d left call ≡ ok (left', bytes, d')
    → d'.fd ≡ d.fd
unfolding write_part checked_write
fd-write_part d d' call left left' bytes e = ground arith

-- Every number given is owned by an object or closed, each as often as it was given.
abbrev pub IsBalanced : World → Type 0
IsBalanced w = (k : ℕ) → owners k w.live + count k w.closed ≡ count k w.opened

step-IsBalanced : {u v : World} → u ⟶ v → IsBalanced u → IsBalanced v
step-IsBalanced (opens w n) h k =
    let owned : number (init (pos n)).fd ≡ n ∷ [] = unfold init in refl in
    omega (arith, h k, ap (count k) owned)
step-IsBalanced (moves xs d ys opened closed) h k =
    let taken : number (move d).0.fd ≡ number d.fd = unfold move in refl in
    let left : number (move d).1.fd ≡ [] = unfold move in refl in
    omega (
      arith,
      h k,
      ap (count k) taken,
      ap (count k) left,
      owners-append k xs (d ∷ ys),
      owners-append k xs ((move d).1 ∷ ys),
    )
step-IsBalanced (reads xs d d' ys opened closed call bytes e) h k =
    let same : count k (number d'.fd) ≡ count k (number d.fd) =
      ap (λ (fd : ℤ). count k (number fd)) (fd-read d d' call bytes e) in
    omega (arith, h k, same, owners-append k xs (d ∷ ys), owners-append k xs (d' ∷ ys))
step-IsBalanced (writes xs d d' ys opened closed call left left' bytes e) h k =
    let same : count k (number d'.fd) ≡ count k (number d.fd) =
      ap (λ (fd : ℤ). count k (number fd)) (fd-write_part d d' call left left' bytes e) in
    omega (arith, h k, same, owners-append k xs (d ∷ ys), owners-append k xs (d' ∷ ys))
step-IsBalanced (destroys xs d ys opened closed) h k =
    let shut : count k (closes d ++ closed) ≡ count k (number d.fd) + count k closed =
      count-append k (closes d) closed
      ∙ ap (λ (l : List ℕ). count k l + count k closed) (closes-eq d) in
    omega (arith, h k, shut, owners-append k xs (d ∷ ys), owners-append k xs ys)

reach-IsBalanced : {u v : World} → u ⟶* v → IsBalanced u → IsBalanced v
reach-IsBalanced here h = h
reach-IsBalanced (next r s) h = step-IsBalanced s (reach-IsBalanced r h)

-- However objects are made, moved from one to another, read from, written to and destroyed: each
-- number that the system has given is owned by one object or closed, as often as it was given. So it
-- is not closed twice, and it is closed once no object owns it.
pub ownership :
    {w : World} (k : ℕ) → start ⟶* w → owners k w.live + count k w.closed ≡ count k w.opened
ownership k r = reach-IsBalanced r (λ j. refl) k
