-- ===== src/Poller.antt =====
-- src/Poller.hpp and src/Poller.cpp: callbacks on files that are ready. `S` is the state of the program, `file` the
-- object that an action's reference names in it; a callback may write to all of it, but not to the poller.
pub mod Paired
pub mod Rounds
mod Tests
use adaptive_transport.Common.{
  ℕ, zero, suc, ◌+◌, bit_and, Bool, true, false, ◌&&◌, ◌||◌, not, Option, none, some, List, [], ◌∷◌,
  ◌++◌, ◌==◌, if◌then◌else◌,
}
use adaptive_transport.Common.Int.{ℤ, pos_part, neg_part}
use adaptive_transport.Common.Calls.{eintr}
use adaptive_transport.FileDescriptor.{FileDescriptor}

pub data Direction : Type 0 where
  inward : Direction
  outward : Direction

-- `POLLIN` and `POLLOUT`.
abbrev pub events_of : Direction → ℕ
events_of inward = 1
events_of outward = 4

-- `POLLERR | POLLHUP | POLLNVAL`.
abbrev pub trouble : ℕ
trouble = 8 + 16 + 32

-- `Action::Result`, with its exit status.
pub data Reply : Type 0 where
  go_on : Reply
  leave : ℕ → Reply
  cancel : Reply

pub record Action (S : Type 0) : Type 0 where
  pub object : ℕ
  pub direction : Direction
  pub callback : S → Reply × S
  pub when_interested : S → Bool
  pub active : Bool

-- `pollfd`.
pub record PollFd : Type 0 where
  pub fd : ℤ
  pub events : ℕ
  pub revents : ℕ

pub record Poller (S : Type 0) : Type 0 where
  pub actions : List (Action S)
  pub pollfds : List PollFd

-- `Poller::Result`.
pub data Verdict : Type 0 where
  success : Verdict
  timed_out : Verdict
  left : ℕ → Verdict

-- `assertion`: one of the two assertions fails. `busy_wait`: the callback did not read or write, and a
-- `runtime_error` is thrown.
pub data Outcome (S : Type 0) : Type 0 where
  polled : Verdict → Poller S → S → Outcome S
  assertion : Outcome S
  busy_wait : Outcome S

-- How `::poll` ends: with an `errno`, or with the `revents` of each entry, or with no entry ready.
pub data PollCall : Type 0 where
  poll_failed : ℕ → PollCall
  none_ready : PollCall
  some_ready : List ℕ → PollCall

abbrev pub same_ℤ : ℤ → ℤ → Bool
same_ℤ a b = (pos_part a == pos_part b) && (neg_part a == neg_part b)

module _ {S : Type 0} (file : S → ℕ → FileDescriptor) where
  unfoldable pub add_action : S → Poller S → Action S → Poller S
  add_action s p action = record {
    actions = p.actions ++ action ∷ [];
    pollfds = p.pollfds ++ record { fd = (file s action.object).fd; events = 0; revents = 0 } ∷ [];
  }

  -- `Action::service_count`.
  unfoldable pub service_count : S → Action S → ℕ
  service_count s a = elim a.direction [
    | inward ↦ (file s a.object).read_count
    | outward ↦ (file s a.object).write_count
  ]

  abbrev pub at_eof : S → Action S → Bool
  at_eof s a = elim a.direction [ inward ↦ (file s a.object).eof | outward ↦ false ]

  -- The `events` that the first loop ends with for an action.
  unfoldable pub events_for : S → Action S → ℕ
  events_for s a =
      if at_eof s a then 0 else if a.active && a.when_interested s then events_of a.direction else 0

  -- The first loop, with both assertions.
  unfoldable pub prepare : S → List (Action S) → List PollFd → Option (List PollFd)
  unfolding events_for
  prepare s [] [] = some []
  prepare s [] (p ∷ ps) = none
  prepare s (a ∷ actions) [] = none
  prepare s (a ∷ actions) (p ∷ ps) =
      let rest = prepare s actions ps in
      if same_ℤ p.fd (file s a.object).fd
      then elim rest [ none ↦ none | some ps' ↦ some (record p { events = events_for s a } ∷ ps') ]
      else none

  abbrev pub any_events : List PollFd → Bool
  any_events [] = false
  any_events (p ∷ ps) = not (p.events == 0) || any_events ps

  -- What `::poll` writes.
  abbrev pub set_revents : List PollFd → List ℕ → List PollFd
  set_revents [] revents = []
  set_revents (p ∷ ps) [] = p ∷ ps
  set_revents (p ∷ ps) (r ∷ revents) = record p { revents = r } ∷ set_revents ps revents

  abbrev pub clear_revents : List PollFd → List PollFd
  clear_revents [] = []
  clear_revents (p ∷ ps) = record p { revents = 0 } ∷ clear_revents ps

  -- How the second loop ends.
  pub data Served : Type 0 where
    served : Verdict → List (Action S) → S → Served
    idle : Served

  abbrev pub add_served : Action S → Served → Served
  add_served a (served v actions s) = served v (a ∷ actions) s
  add_served a idle = idle

  -- The `switch` on a callback's reply; `rest` is what the loop does next.
  unfoldable pub replied : Reply → Action S → List (Action S) → S → Served → Served
  replied go_on a actions s' rest = add_served a rest
  replied (leave status) a actions s' rest = served (left status) (a ∷ actions) s'
  replied cancel a actions s' rest = add_served (record a { active = false }) rest

  -- The second loop, from some entry on.
  unfoldable pub serve : S → List (Action S) → List PollFd → Served
  unfolding service_count replied
  serve s [] ps = served success [] s
  serve s (a ∷ actions) [] = served success (a ∷ actions) s
  serve s (a ∷ actions) (p ∷ ps) =
      let skip = add_served a (serve s actions ps) in
      let (reply, s') = a.callback s in
      let rest = serve s' actions ps in
      if not (bit_and p.revents trouble == 0)
      then served (left 0) (a ∷ actions) s
      else if bit_and p.revents p.events == 0
      then skip
      else if service_count s a == service_count s' a
      then idle
      else replied reply a actions s' rest

  abbrev pub outcome_of : List PollFd → Served → Outcome S
  outcome_of pollfds (served v actions s) =
      polled v (record { actions = actions; pollfds = pollfds }) s
  outcome_of pollfds idle = busy_wait

  -- After the call: it has timed out, been interrupted, failed otherwise, which is not told on, or found some ready.
  unfoldable pub after_call : S → List (Action S) → List PollFd → PollCall → Outcome S
  unfolding serve
  after_call s actions ps none_ready =
      polled timed_out (record { actions = actions; pollfds = clear_revents ps }) s
  after_call s actions ps (poll_failed errno) =
      if errno == eintr
      then polled (left 0) (record { actions = actions; pollfds = ps }) s
      else outcome_of ps (serve s actions ps)
  after_call s actions ps (some_ready revents) =
      let ps' = set_revents ps revents in outcome_of ps' (serve s actions ps')

  unfoldable pub poll : S → Poller S → PollCall → Outcome S
  unfolding prepare after_call
  poll s p call = elim (prepare s p.actions p.pollfds) [
    | none ↦ assertion
    | some ps ↦
        if any_events ps
        then after_call s p.actions ps call
        else polled (left 0) (record { actions = p.actions; pollfds = ps }) s
  ]
