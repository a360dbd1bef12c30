-- ===== src/Transfer/RoundTrip.antt =====
-- What recv_data writes is what send_data reads.
use adaptive_transport.Common.{
  ℕ, zero, suc, ◌^◌, ◌≤◌, ◌<◌, ◌≡◌, refl, ap, ◌∙◌, Bool, true, false, inl, inr, Bool-cases, List,
  [], ◌∷◌, ◌++◌, append-nil, ltb, if◌then◌else◌, length, length-take, take, drop, take_all,
  take-append-drop, replicate, arith,
}
use adaptive_transport.Common.Bytes.{All, store_le}
use adaptive_transport.Common.Calls.{ReadCall}
use adaptive_transport.FullIo.{returned, full_read}
use adaptive_transport.FullIo.Reads.{Serves, read_so_far, read_so_far-eq, full_read_lem}
use adaptive_transport.Transfer.{
  blocksize, header, message, send_data, at_header, finished, recv_data,
}
use adaptive_transport.Transfer.Frame.{flat, is_last, Watches, frame, encode, recv_data_lem}

-- The reads of the rounds are those of a file: all rounds but the last fill their block.
pub data Supplies : List (List ReadCall) → List ℕ → Type 0 where
  last :
      {calls : List ReadCall} {rounds : List (List ReadCall)} {file : List ℕ}
      → Serves calls blocksize file
      → length file < blocksize
      → Supplies (calls ∷ rounds) file
  block :
      {calls : List ReadCall} {rounds : List (List ReadCall)} {file : List ℕ}
      → Serves calls blocksize file
      → blocksize ≤ length file
      → Supplies rounds (drop blocksize file)
      → Supplies (calls ∷ rounds) file

-- A file in blocks, the last of which is not full.
unfoldable pub blocks : ℕ → List ℕ → List (List ℕ)
blocks zero file = []
blocks (suc fuel) file =
    let rest = blocks fuel (drop blocksize file) in
    if ltb (length file) blocksize then file ∷ [] else take blocksize file ∷ rest

ltb_yes : (a b : ℕ) → a < b → ltb a b ≡ true
ltb_yes a b h = ground arith

ltb_no : (a b : ℕ) → b ≤ a → ltb a b ≡ false
ltb_no a b h = ground arith

abbrev frames : List (List ℕ) → List (List ℕ)
frames [] = []
frames (b ∷ bs) = frame (is_last bs) b ∷ frames bs

flat-frames : (bs : List (List ℕ)) → flat (frames bs) ≡ encode bs
flat-frames [] = refl
flat-frames (b ∷ bs) = ap (λ (l : List ℕ). frame (is_last bs) b ++ l) (flat-frames bs)

message-frame : (eof : Bool) (b : List ℕ) → message (read_so_far eof (length b) b) ≡ frame eof b
unfolding message
message-frame eof b =
    ap (λ (l : List ℕ). store_le 4 (header eof (length b)) (replicate 4 0) ++ l)
      (take_all {A = ℕ} (length b) b (omega arith))

send_data-ends :
    (calls : List ReadCall) (rounds : List (List ReadCall)) (total : ℕ) (buf : List ℕ)
    → full_read calls blocksize ≡ returned (read_so_far true total buf)
    → send_data (calls ∷ rounds) ≡ returned (message (read_so_far true total buf) ∷ [])
unfolding send_data
send_data-ends calls rounds total buf e = rw (e, send_data) refl

send_data-goes_on :
    (calls : List ReadCall) (rounds : List (List ReadCall)) (total : ℕ) (buf : List ℕ)
    (ms : List (List ℕ))
    → full_read calls blocksize ≡ returned (read_so_far false total buf)
    → send_data rounds ≡ returned ms
    → send_data (calls ∷ rounds) ≡ returned (message (read_so_far false total buf) ∷ ms)
unfolding send_data
send_data-goes_on calls rounds total buf ms e rest = rw (e, send_data, rest) refl

-- What each round reads.
full_read-block :
    (calls : List ReadCall) (file : List ℕ) (eof : Bool)
    → Serves calls blocksize file
    → ltb (length file) blocksize ≡ eof
    → full_read calls blocksize
      ≡ returned (read_so_far eof (length (take blocksize file)) (take blocksize file))
full_read-block calls file eof h e =
    full_read_lem h (omega arith)
    ∙ ap returned (read_so_far-eq e (omega (arith, length-take blocksize file)) refl)

-- What each round sends.
send-last :
    (calls : List ReadCall) (rounds : List (List ReadCall)) (file : List ℕ)
    → Serves calls blocksize file
    → length file < blocksize
    → send_data (calls ∷ rounds) ≡ returned (frame true file ∷ [])
send-last calls rounds file h less =
    send_data-ends calls rounds _ _
      (full_read-block calls file true h (ltb_yes (length file) blocksize less))
    ∙ ap (λ (m : List ℕ). returned (m ∷ []))
        (message-frame true (take blocksize file)
          ∙ ap (frame true) (take_all {A = ℕ} blocksize file (omega arith)))

send-block :
    (calls : List ReadCall) (rounds : List (List ReadCall)) (file : List ℕ) (ms : List (List ℕ))
    → Serves calls blocksize file
    → blocksize ≤ length file
    → send_data rounds ≡ returned ms
    → send_data (calls ∷ rounds) ≡ returned (frame false (take blocksize file) ∷ ms)
send-block calls rounds file ms h more rest =
    send_data-goes_on calls rounds _ _ ms
      (full_read-block calls file false h (ltb_no (length file) blocksize more)) rest
    ∙ ap (λ (m : List ℕ). returned (m ∷ ms)) (message-frame false (take blocksize file))

blocks-some :
    (rounds : List (List ReadCall)) (file : List ℕ)
    → Supplies rounds file
    → 0 < length (blocks (length rounds) file)
unfolding blocks
blocks-some [] file s = elim s [ ]
blocks-some (calls ∷ rounds) file s = elim (Bool-cases (ltb (length file) blocksize)) [
  | inl ends ↦ rw ends (omega arith)
  | inr goes_on ↦ rw goes_on (omega arith)
]

not_last : (bs : List (List ℕ)) → 0 < length bs → false ≡ is_last bs
not_last [] h = absurd (omega arith)
not_last (b ∷ bs) h = refl

send_data_lem :
    {rounds : List (List ReadCall)} {file : List ℕ}
    → Supplies rounds file
    → send_data rounds ≡ returned (frames (blocks (length rounds) file))
unfolding blocks
send_data_lem {file = file} (last {calls} {rounds} h less) =
    rw (ltb_yes (length file) blocksize less) (send-last calls rounds file h less)
send_data_lem {file = file} (block {calls} {rounds} h more s) =
    rw (ltb_no (length file) blocksize more) (
      send-block calls rounds file (frames (blocks (length rounds) (drop blocksize file))) h more
        (send_data_lem s)
      ∙ ap
          (λ (e : Bool).
            returned (
              frame e (take blocksize file)
              ∷ frames (blocks (length rounds) (drop blocksize file))))
          (not_last (blocks (length rounds) (drop blocksize file))
            (blocks-some rounds (drop blocksize file) s)))

flat-blocks :
    {rounds : List (List ReadCall)} {file : List ℕ}
    → Supplies rounds file
    → flat (blocks (length rounds) file) ≡ file
unfolding blocks
flat-blocks {file = file} (last {calls} {rounds} h less) =
    rw (ltb_yes (length file) blocksize less) (append-nil file)
flat-blocks {file = file} (block {calls} {rounds} h more s) =
    rw (ltb_no (length file) blocksize more) (
      ap (λ (l : List ℕ). take blocksize file ++ l) (flat-blocks s)
      ∙ take-append-drop blocksize file)

small-blocks :
    {rounds : List (List ReadCall)} {file : List ℕ}
    → Supplies rounds file
    → All (λ (b : List ℕ). length b < 2 ^ 31) (blocks (length rounds) file)
unfolding blocks
small-blocks {file = file} (last {calls} {rounds} h less) =
    rw (ltb_yes (length file) blocksize less) (omega arith, tt)
small-blocks {file = file} (block {calls} {rounds} h more s) =
    rw (ltb_no (length file) blocksize more)
      (omega (arith, length-take blocksize file), small-blocks s)

-- For reads that supply a file and looks at the arrived bytes that see each header whole and each
-- block's end: send_data ends its loop, and from the bytes it has sent recv_data ends its loop with
-- the file written.
pub transfer :
    {rounds : List (List ReadCall)} {file looks : List ℕ}
    → Supplies rounds file
    → Watches looks at_header (blocks (length rounds) file)
    → (messages : List (List ℕ)) × (send_data rounds ≡ returned messages)
      × (recv_data looks at_header (flat messages) [] ≡ finished file)
transfer {rounds} {file} {looks} s w =
    let bs = blocks (length rounds) file in
    (
      frames bs,
      send_data_lem s,
      ap (λ (bytes : List ℕ). recv_data looks at_header bytes []) (flat-frames bs)
          ∙ recv_data_lem [] w (blocks-some rounds file s) (small-blocks s)
          ∙ ap finished (flat-blocks s),
    )
