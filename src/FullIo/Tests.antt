-- ===== src/FullIo/Tests.antt =====
-- Reads and writes of a few bytes, in pieces and with an interruption.
use adaptive_transport.Common.{◌≡◌, min, List, [], ◌∷◌, ltb, take, arith}
use adaptive_transport.Common.Calls.{
  eintr, ReadCall, read_failed, read_bytes, WriteCall, write_failed, wrote,
}
use adaptive_transport.FullIo.{returned, full_read, full_write}
use adaptive_transport.FullIo.Reads.{Serves, interrupted, next_bytes, at_end, full_read_lem}
use adaptive_transport.FullIo.Writes
use adaptive_transport.FullIo.Writes.{
  Takes, all_taken, some_taken, Fails, failed, after_some, full_write_lem, full_write-aborts,
}

abbrev reads : List ReadCall
reads = read_bytes (1 ∷ 2 ∷ []) ∷ read_failed eintr ∷ read_bytes (3 ∷ []) ∷ read_bytes [] ∷ []

reads-Serves : Serves reads 4 (1 ∷ 2 ∷ 3 ∷ [])
reads-Serves =
    next_bytes (1 ∷ 2 ∷ []) (3 ∷ []) (omega arith) (omega arith)
      (interrupted (next_bytes (3 ∷ []) [] (omega arith) (omega arith) at_end))

full_read_lem_example :
    full_read reads 4
    ≡ returned (record { eof = ltb 3 4; total = min 3 4; buf = take 4 (1 ∷ 2 ∷ 3 ∷ []) })
full_read_lem_example = full_read_lem reads-Serves (omega arith)

abbrev writes : List WriteCall
writes = wrote 1 ∷ write_failed eintr ∷ wrote 0 ∷ wrote 2 ∷ []

writes-Takes : Takes writes 3
writes-Takes =
    some_taken 1 (omega arith)
      (Writes.interrupted (some_taken 0 (omega arith) (some_taken 2 (omega arith) all_taken)))

full_write_lem_example : full_write writes (7 ∷ 8 ∷ 9 ∷ []) 3 ≡ returned (3, 7 ∷ 8 ∷ 9 ∷ [])
full_write_lem_example = full_write_lem (7 ∷ 8 ∷ 9 ∷ []) writes-Takes (omega arith)
