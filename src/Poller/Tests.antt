-- ===== src/Poller/Tests.antt =====
-- Two actions on one file: the first reads, the second has been cancelled.
use adaptive_transport.Common.{ℕ, ◌+◌, ◌≡◌, refl, true, false, [], ◌∷◌}
use adaptive_transport.Common.Int.{pos}
use adaptive_transport.FileDescriptor.{FileDescriptor}
use adaptive_transport.Poller.{
  Action, Poller, go_on, cancel, inward, outward, Outcome, polled, some_ready, poll_failed, poll,
}
use adaptive_transport.Poller.Rounds.{EndsWell, poll-EndsWell}

-- The state is the number of reads from the file.
abbrev file : ℕ → ℕ → FileDescriptor
file reads object = record { fd = pos 7; eof = false; read_count = reads; write_count = 0 }

abbrev reader : Action ℕ
reader = record {
  object = 0;
  direction = inward;
  callback = λ reads. (cancel, reads + 1);
  when_interested = λ reads. true;
  active = true;
}

abbrev writer : Action ℕ
writer = record {
  object = 0;
  direction = outward;
  callback = λ reads. (go_on, reads);
  when_interested = λ reads. true;
  active = false;
}

abbrev poller : Poller ℕ
poller = record {
  actions = reader ∷ writer ∷ [];
  pollfds =
      record { fd = pos 7; events = 0; revents = 0 }
      ∷ record { fd = pos 7; events = 0; revents = 0 }
      ∷ [];
}

poll-EndsWell_example : EndsWell file 3 (poll file 3 poller (some_ready (1 ∷ 4 ∷ [])))
poll-EndsWell_example =
    poll-EndsWell file 3 poller (some_ready (1 ∷ 4 ∷ [])) (refl, (refl, tt))
      ((λ s j. refl), ((λ s j. refl), tt))

-- A call that fails otherwise than by an interruption is not told on: the `revents` of the call before are
-- served again.
abbrev stale : Poller ℕ
stale = record {
  actions = reader ∷ [];
  pollfds = record { fd = pos 7; events = 1; revents = 1 } ∷ [];
}

abbrev reads_after : Outcome ℕ → ℕ
reads_after (polled v p reads) = reads
reads_after other = 0

stale_served : reads_after (poll file 3 stale (poll_failed 22)) ≡ 4
unfolding poll
stale_served = refl
