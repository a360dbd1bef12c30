-- ===== src/Poller/Rounds.antt =====
-- The assertions of `poll` never fail.
use adaptive_transport.Common.{ℕ, refl, inl, inr, Bool-cases, List, ◌==◌}
use adaptive_transport.Common.Bytes.{All}
use adaptive_transport.Common.Calls.{eintr}
use adaptive_transport.FileDescriptor.{FileDescriptor}
use adaptive_transport.Poller.{
  Action, PollFd, Poller, Outcome, polled, assertion, busy_wait, PollCall, poll_failed, none_ready,
  some_ready, any_events, set_revents, Served, served, idle, outcome_of, after_call, poll,
}
use adaptive_transport.Poller.Paired.{
  Paired, SameFiles, Keeps, Ends, Paired-set_revents, Paired-clear_revents, prepare-Paired,
  serve-Ends,
}

module _ {S : Type 0} (file : S → ℕ → FileDescriptor) where
  -- The poller and the program's state after a call of `poll` that does not throw.
  pub record AfterPoll (s s' : S) (p' : Poller S) : Type 0 where
    pub paired : Paired file s' p'.actions p'.pollfds
    pub keeps : All (Keeps file) p'.actions
    pub same : SameFiles file s s'

  abbrev pub EndsWell : S → Outcome S → Type 0
  EndsWell s (polled v p' s') = AfterPoll s s' p'
  EndsWell s busy_wait = Unit {0}
  EndsWell s assertion = ⊥

  outcome_of-EndsWell :
      (s : S) (ps : List PollFd) (r : Served file)
      → Ends file s ps r
      → EndsWell s (outcome_of file ps r)
  outcome_of-EndsWell s ps (served v actions' s') h = record {
    paired = h.paired;
    keeps = h.keeps;
    same = h.same;
  }
  outcome_of-EndsWell s ps idle h = tt

  after_call-EndsWell :
      (s : S) (actions : List (Action S)) (ps : List PollFd) (call : PollCall)
      → Paired file s actions ps
      → All (Keeps file) actions
      → EndsWell s (after_call file s actions ps call)
  unfolding after_call
  after_call-EndsWell s actions ps none_ready h k = record {
    paired = Paired-clear_revents file s actions ps h;
    keeps = k;
    same = λ j. refl;
  }
  after_call-EndsWell s actions ps (poll_failed errno) h k = elim (Bool-cases (errno == eintr)) [
    | inl interrupted ↦ rw interrupted (record { paired = h; keeps = k; same = λ j. refl })
    | inr other ↦ rw other (outcome_of-EndsWell s ps _ (serve-Ends file s actions ps h k))
  ]
  after_call-EndsWell s actions ps (some_ready revents) h k =
      let ps' = set_revents file ps revents in
      outcome_of-EndsWell s ps' _
        (serve-Ends file s actions ps' (Paired-set_revents file s actions ps revents h) k)

  -- For a poller with an entry for each action that has its file's number, while no callback changes
  -- the number of a file: whatever the call of the system and the callbacks return, `poll` fails no
  -- assertion, and unless it throws, the poller is so again.
  pub poll-EndsWell :
      (s : S) (p : Poller S) (call : PollCall)
      → Paired file s p.actions p.pollfds
      → All (Keeps file) p.actions
      → EndsWell s (poll file s p call)
  unfolding poll
  poll-EndsWell s p call h k =
      let (ps, runs, h') = prepare-Paired file s p.actions p.pollfds h in
      elim (Bool-cases (any_events file ps)) [
        | inl some_events ↦
            rw (runs, poll, some_events) (after_call-EndsWell s p.actions ps call h' k)
        | inr no_events ↦
            rw (runs, poll, no_events) (record { paired = h'; keeps = k; same = λ j. refl })
      ]
