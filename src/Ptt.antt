-- ===== src/Ptt.antt =====
-- src/PTT.hpp and src/PTT.cpp: the times of packets in a ring with three cursors. From `tail` to `head1` lie
-- the entries that can be read, from there to `head0` those of packets in flight.
pub mod View
pub mod Skip
pub mod Ends
pub mod InOrder
pub mod Search
pub mod Found
pub mod OutOfOrder
mod Tests
use adaptive_transport.Common.{
  ℕ, zero, suc, ◌+◌, ◌-◌, ◌*◌, ◌%◌, ◌^◌, Bool, true, false, not, ◌||◌, Option, none, some, ◌==◌,
  leb, ltb, if◌then◌else◌, update,
}

-- `PTT::Metadata`.
pub record Entry : Type 0 where
  pub seq : ℕ
  pub ts_sent : ℕ
  pub ts_recv : ℕ

-- The mapping of `m_base` shows each entry twice; the code reads and writes the first `size` entries only.
pub record Ptt : Type 0 where
  pub entries : ℕ → Entry
  pub size : ℕ
  pub next_seq : ℕ
  pub head0 : ℕ
  pub head1 : ℕ
  pub tail : ℕ

-- `PTT::PTT`. Fresh anonymous pages hold zeros.
unfoldable pub init : ℕ → Ptt
init page_size = record {
  entries = λ _. record { seq = 0; ts_sent = 0; ts_recv = 0 };
  size = page_size;
  next_seq = 1;
  head0 = 0;
  head1 = 0;
  tail = 0;
}

-- The step of a cursor: add 1, and back to 0 at the size.
abbrev pub step : ℕ → ℕ → ℕ
step size i = if i + 1 == size then 0 else i + 1

-- `PTT::indexDifference`.
abbrev pub index_difference : ℕ → ℕ → ℕ → ℕ
index_difference size minuend subtrahend =
    if leb subtrahend minuend then minuend - subtrahend else minuend + size - subtrahend

unfoldable pub in_flight_size : Ptt → ℕ
in_flight_size p = index_difference p.size p.head0 p.head1

unfoldable pub readable : Ptt → ℕ
readable p = index_difference p.size p.head1 p.tail

-- `PTT::rptr`: `none` is the null pointer.
unfoldable pub rptr : Ptt → Option Entry
unfolding readable
rptr p = if readable p == 0 then none else some (p.entries p.tail)

unfoldable pub read_advance : Ptt → ℕ → Ptt
read_advance p num =
    let tail' = p.tail + num in
    record p { tail = if leb p.size tail' then tail' - p.size else tail' }

abbrev pub advance_head0 : Ptt → Ptt
advance_head0 p = record p { head0 = step p.size p.head0 }

-- `PTT::setSent` at time `now`: the sequence number, and the ring with the entry.
unfoldable pub set_sent : (now ts_sent : ℕ) → Ptt → ℕ × Ptt
set_sent now ts_sent p =
    let ts = if ts_sent == 0 then now else ts_sent in
    let p1 = advance_head0 p in
    (
      p.next_seq,
      record p1 {
        entries = update p.entries p.head0 (record { seq = p.next_seq; ts_sent = ts; ts_recv = 0 });
        next_seq = (p.next_seq + 1) % 2 ^ 32;
      },
    )

-- The loops that move `head1` over entries with a receive time; each round takes one entry out of flight.
unfoldable pub skip_received : ℕ → Ptt → Ptt
skip_received zero p = p
skip_received (suc fuel) p =
    let rest = skip_received fuel (record p { head1 = step p.size p.head1 }) in
    if p.head1 == p.head0 || (p.entries p.head1).ts_recv == 0 then p else rest

-- `mbase[i].tsRecv = tsRecv`.
abbrev pub set_entry : Ptt → ℕ → ℕ → Ptt
set_entry p i ts = record p { entries = update p.entries i (record (p.entries i) { ts_recv = ts }) }

-- What is done with the entry that the search has found.
unfoldable pub on_found : Ptt → ℕ → ℕ → Ptt
unfolding skip_received
on_found p i ts =
    let p1 = set_entry p i ts in
    if ltb 5 (index_difference p1.size i p1.head1)
    then skip_received p1.size (record p1 { head1 = i })
    else p1

-- The search from `ii` up to `head0`; the fuel bounds its rounds.
unfoldable pub search : ℕ → Ptt → ℕ → ℕ → Option ℕ
search zero p s ii = none
search (suc fuel) p s ii =
    let rest = search fuel p s (step p.size ii) in
    if ii == p.head0 then none else if (p.entries ii).seq == s then some ii else rest

-- `PTT::setRecv` at time `now`.
unfoldable pub set_recv : (now s ts_recv : ℕ) → Ptt → Bool × Ptt
unfolding skip_received search on_found
set_recv now s ts_recv p =
    let ts = if ts_recv == 0 then now else ts_recv in
    if (p.entries p.head1).seq == s
    then (true, skip_received p.size (set_entry p p.head1 ts))
    else elim (search p.size p s (step p.size p.head1)) [
      | none ↦ (false, p)
      | some i ↦ (true, on_found p i ts)
    ]
