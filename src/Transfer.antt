-- ===== src/Transfer.antt =====
-- src/send_data.cpp and src/recv_data.cpp: the standard input, cut into blocks that each follow a header of 4 bytes,
-- and the standard output. The stream between them is the sequence of the bytes sent; what the loops that
-- wait see of it is given, one result of `readable ()` for each look. Command lines and logs are left out.
pub mod Frame
pub mod RoundTrip
mod Tests
use adaptive_transport.Common.{
  ℕ, zero, suc, ◌-◌, ◌*◌, ◌/◌, ◌%◌, ◌^◌, bit_and, bit_or, Bool, true, false, not, Option, none,
  some, List, [], ◌∷◌, ◌++◌, ◌==◌, ltb, if◌then◌else◌, take, drop, replicate,
}
use adaptive_transport.Common.Bytes.{load_le, store_le}
use adaptive_transport.Common.Calls.{ReadCall}
use adaptive_transport.FullIo
use adaptive_transport.FullIo.{Outcome, Reading, returned, full_read}

abbrev pub blocksize : ℕ
blocksize = 1024 * 128

-- `nBytes | (eof << 31)`.
unfoldable pub header : Bool → ℕ → ℕ
header eof n_bytes = bit_or n_bytes ((if eof then 1 else 0) * 2 ^ 31)

-- The string that is sent: the header's bytes and the block.
unfoldable pub message : Reading → List ℕ
unfolding header
message r = store_le 4 (header r.eof r.total) (replicate 4 0) ++ take r.total r.buf

-- The loop of send_data's `main`, with the calls that each `full_read` makes: the strings sent, once `eof` is set.
-- The waits for `bytesQueued ()` only delay it.
unfoldable pub send_data : List (List ReadCall) → FullIo.Outcome (List (List ℕ))
unfolding message
send_data [] = FullIo.blocked
send_data (calls ∷ rounds) =
    let rest = send_data rounds in
    elim (full_read calls blocksize) [
      | returned r ↦ if r.eof then returned (message r ∷ []) else elim rest [
        | returned messages ↦ returned (message r ∷ messages)
        | FullIo.aborted ↦ FullIo.aborted
        | FullIo.blocked ↦ FullIo.blocked
      ]
      | FullIo.aborted ↦ FullIo.aborted
      | FullIo.blocked ↦ FullIo.blocked
    ]

-- Where recv_data stands: before a header, or before the `size` bytes of a block.
pub data Stage : Type 0 where
  at_header : Stage
  in_block : (size : ℕ) → (eof : Bool) → Stage

-- `finished`: the loop has ended, with what it has written. `misread`: a header was read of which not all bytes
-- had arrived. `watching`: the results of `readable ()` are used up.
pub data Received : Type 0 where
  finished : List ℕ → Received
  misread : Received
  watching : Received

-- The block's size and the flag, of a header's bytes.
abbrev pub stage_of : ℕ → Stage
stage_of word = in_block (bit_and word (2 ^ 31 - 1)) (not (word / 2 ^ 31 == 0))

-- The loop of recv_data's `main`: `bytes` are those of the stream that it has not read, `out` those written.
unfoldable pub recv_data : List ℕ → Stage → (bytes out : List ℕ) → Received
recv_data [] stage bytes out = watching
recv_data (n ∷ looks) at_header bytes out =
    let waits = recv_data looks at_header bytes out in
    let block = recv_data looks (stage_of (load_le 4 bytes)) (drop 4 bytes) out in
    if n == 0 then waits else if ltb n 4 then misread else block
recv_data (n ∷ looks) (in_block size eof) bytes out =
    let waits = recv_data looks (in_block size eof) bytes out in
    let next = recv_data looks at_header (drop size bytes) (out ++ take size bytes) in
    if ltb n size then waits else if eof then finished (out ++ take size bytes) else next
