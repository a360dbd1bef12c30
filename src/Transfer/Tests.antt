-- ===== src/Transfer/Tests.antt =====
-- A file of three bytes.
use adaptive_transport.Common.{ℕ, ◌≡◌, refl, List, [], ◌∷◌, length, arith}
use adaptive_transport.Common.Calls.{ReadCall, read_bytes}
use adaptive_transport.FullIo.{returned}
use adaptive_transport.FullIo.Reads.{next_bytes, at_end}
use adaptive_transport.Transfer.{send_data, at_header, misread, finished, recv_data}
use adaptive_transport.Transfer.Frame.{flat, Watches, done, idle, arrived, short, filled}
use adaptive_transport.Transfer.RoundTrip.{Supplies, last, blocks, transfer}

abbrev file : List ℕ
file = 7 ∷ 8 ∷ 9 ∷ []

abbrev rounds : List (List ReadCall)
rounds = (read_bytes file ∷ read_bytes [] ∷ []) ∷ []

rounds-Supplies : Supplies rounds file
rounds-Supplies = last (next_bytes file [] (omega arith) (omega arith) at_end) (omega arith)

-- Nothing, the whole message, and then, behind the header, one byte and all.
abbrev looks : List ℕ
looks = 0 ∷ 5 ∷ 1 ∷ 3 ∷ []

looks-Watches : Watches looks at_header (blocks (length rounds) file)
unfolding blocks
looks-Watches = idle (arrived 5 (omega arith) (short 1 (omega arith) (filled 3 (omega arith) done)))

transfer_example :
    (messages : List (List ℕ)) × (send_data rounds ≡ returned messages)
    × (recv_data looks at_header (flat messages) [] ≡ finished file)
transfer_example = transfer rounds-Supplies looks-Watches

-- Three bytes of a header have arrived when it is read.
early : recv_data (3 ∷ []) at_header (3 ∷ 0 ∷ 0 ∷ []) [] ≡ misread
unfolding recv_data
early = refl
