-- ===== src/FileDescriptor/Tests.antt =====
-- One file, opened, moved, written to, and closed with its objects.
use adaptive_transport.Common.{◌+◌, ◌≡◌, refl, true, false, [], ◌∷◌}
use adaptive_transport.Common.Int.{pos, negsuc}
use adaptive_transport.Common.Calls.{wrote}
use adaptive_transport.FileDescriptor.{
  FileDescriptor, ok, exited, init, move, destroy, write, write_part,
}
use adaptive_transport.FileDescriptor.Ownership.{
  World, start, opens, moves, destroys, here, next, ◌⟶*◌, count, ownership,
}
use adaptive_transport.FileDescriptor.Writing.{after_writes}

abbrev file : FileDescriptor
file = record { fd = pos 7; eof = false; read_count = 0; write_count = 0 }

abbrev moved : FileDescriptor
moved = record { fd = negsuc 0; eof = false; read_count = 0; write_count = 0 }

-- The file is opened, its object moved, and both objects destroyed.
abbrev ends : World
ends = record { live = []; opened = 7 ∷ []; closed = 7 ∷ [] }

run : start ⟶* ends
unfolding init move destroy
run =
    next
      (next (next (next here (opens start 7)) (moves [] file [] (7 ∷ []) []))
        (destroys (file ∷ []) moved [] (7 ∷ []) []))
      (destroys [] file [] (7 ∷ []) [])

ownership_example : 0 + count 7 (7 ∷ []) ≡ count 7 (7 ∷ [])
ownership_example = ownership 7 run

two_calls :
    write file (1 ∷ 2 ∷ 3 ∷ []) true (wrote 2 ∷ wrote 1 ∷ [])
    ≡ ok ([], 1 ∷ 2 ∷ 3 ∷ [], after_writes file 2)
unfolding write write_part
two_calls = refl

-- The program exits on an empty string, before any call.
empty_string : write file [] true (wrote 2 ∷ []) ≡ exited
unfolding write write_part
empty_string = refl
