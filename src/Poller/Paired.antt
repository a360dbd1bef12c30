-- ===== src/Poller/Paired.antt =====
-- Each entry keeps the number of its action's file.
use adaptive_transport.Common.{
  ℕ, ◌≡◌, refl, sym, ap, ◌∙◌, inl, inr, bit_and, true, false, Bool-cases, some, List, [], ◌∷◌, ◌++◌,
  ◌==◌, arith,
}
use adaptive_transport.Common.Int.{ℤ}
use adaptive_transport.Common.Bytes.{All}
use adaptive_transport.FileDescriptor.{FileDescriptor}
use adaptive_transport.Poller.{
  Action, PollFd, Poller, Reply, go_on, leave, cancel, same_ℤ, trouble, add_action, service_count,
  events_for, prepare, set_revents, clear_revents, Served, served, idle, add_served, replied, serve,
}

module _ {S : Type 0} (file : S → ℕ → FileDescriptor) where
  -- One entry for each action, with the number of its file.
  abbrev pub Paired : S → List (Action S) → List PollFd → Type 0
  Paired s [] [] = Unit {0}
  Paired s [] (p ∷ ps) = ⊥
  Paired s (a ∷ actions) [] = ⊥
  Paired s (a ∷ actions) (p ∷ ps) = (p.fd ≡ (file s a.object).fd) × Paired s actions ps

  -- A file keeps its number: no object is moved.
  abbrev pub SameFiles : S → S → Type 0
  SameFiles s s' = (k : ℕ) → (file s' k).fd ≡ (file s k).fd

  abbrev pub Keeps : Action S → Type 0
  Keeps a = (s : S) → SameFiles s (a.callback s).1

  Paired-SameFiles :
      (s s' : S) (actions : List (Action S)) (ps : List PollFd)
      → SameFiles s s'
      → Paired s actions ps
      → Paired s' actions ps
  Paired-SameFiles s s' [] [] same h = tt
  Paired-SameFiles s s' [] (p ∷ ps) same h = h
  Paired-SameFiles s s' (a ∷ actions) [] same h = h
  Paired-SameFiles s s' (a ∷ actions) (p ∷ ps) same h =
      (h.0 ∙ sym (same a.object), Paired-SameFiles s s' actions ps same h.1)

  pub Paired-set_revents :
      (s : S) (actions : List (Action S)) (ps : List PollFd) (revents : List ℕ)
      → Paired s actions ps
      → Paired s actions (set_revents file ps revents)
  Paired-set_revents s [] [] revents h = h
  Paired-set_revents s [] (p ∷ ps) revents h = absurd h
  Paired-set_revents s (a ∷ actions) [] revents h = h
  Paired-set_revents s (a ∷ actions) (p ∷ ps) [] h = h
  Paired-set_revents s (a ∷ actions) (p ∷ ps) (r ∷ revents) h =
      (h.0, Paired-set_revents s actions ps revents h.1)

  pub Paired-clear_revents :
      (s : S) (actions : List (Action S)) (ps : List PollFd)
      → Paired s actions ps
      → Paired s actions (clear_revents file ps)
  Paired-clear_revents s [] [] h = h
  Paired-clear_revents s [] (p ∷ ps) h = absurd h
  Paired-clear_revents s (a ∷ actions) [] h = h
  Paired-clear_revents s (a ∷ actions) (p ∷ ps) h = (h.0, Paired-clear_revents s actions ps h.1)

  same_ℤ-refl : (a b : ℤ) → a ≡ b → same_ℤ a b ≡ true
  same_ℤ-refl a b e = rw e (ground arith)

  pub prepare-Paired :
      (s : S) (actions : List (Action S)) (ps : List PollFd)
      → Paired s actions ps
      → (ps' : List PollFd) × (prepare file s actions ps ≡ some ps') × Paired s actions ps'
  unfolding prepare
  prepare-Paired s [] [] h = ([], refl, h)
  prepare-Paired s [] (p ∷ ps) h = absurd h
  prepare-Paired s (a ∷ actions) [] h = absurd h
  prepare-Paired s (a ∷ actions) (p ∷ ps) h =
      let (ps', runs, h') = prepare-Paired s actions ps h.1 in
      rw (same_ℤ-refl p.fd (file s a.object).fd h.0, runs)
        (record p { events = events_for file s a } ∷ ps', refl, (h.0, h'))

  -- The poller after its second loop.
  pub record AfterServe (s s' : S) (actions' : List (Action S)) (ps : List PollFd) : Type 0 where
    pub paired : Paired s' actions' ps
    pub keeps : All Keeps actions'
    pub same : SameFiles s s'

  -- The loop throws, or ends with the poller paired.
  abbrev pub Ends : S → List PollFd → Served file → Type 0
  Ends s ps (served v actions' s') = AfterServe s s' actions' ps
  Ends s ps idle = Unit {0}

  AfterServe-cons :
      (s s1 : S) (a a' : Action S) (p : PollFd) (ps : List PollFd) (r : Served file)
      → a'.object ≡ a.object
      → Keeps a'
      → SameFiles s s1
      → p.fd ≡ (file s a.object).fd
      → Ends s1 ps r
      → Ends s (p ∷ ps) (add_served file a' r)
  AfterServe-cons s s1 a a' p ps (served v actions' s') at_same k same e h = record {
    paired = (
      e
          ∙ sym (same a.object)
          ∙ sym (h.same a.object)
          ∙ ap (λ (o : ℕ). (file s' o).fd) (sym at_same),
      h.paired,
    );
    keeps = (k, h.keeps);
    same = λ j. h.same j ∙ same j;
  }
  AfterServe-cons s s1 a a' p ps idle at_same k same e h = tt

  replied-Ends :
      (s : S) (reply : Reply) (a : Action S) (actions : List (Action S)) (p : PollFd)
      (ps : List PollFd) (r : Served file)
      → Paired s (a ∷ actions) (p ∷ ps)
      → All Keeps (a ∷ actions)
      → Ends (a.callback s).1 ps r
      → Ends s (p ∷ ps) (replied file reply a actions (a.callback s).1 r)
  unfolding replied
  replied-Ends s go_on a actions p ps r h k e =
      AfterServe-cons s (a.callback s).1 a a p ps r refl k.0 (k.0 s) h.0 e
  replied-Ends s (leave status) a actions p ps r h k e = record {
    paired = Paired-SameFiles s (a.callback s).1 (a ∷ actions) (p ∷ ps) (k.0 s) h;
    keeps = k;
    same = k.0 s;
  }
  replied-Ends s cancel a actions p ps r h k e =
      AfterServe-cons s (a.callback s).1 a (record a { active = false }) p ps r refl k.0 (k.0 s) h.0
        e

  pub serve-Ends :
      (s : S) (actions : List (Action S)) (ps : List PollFd)
      → Paired s actions ps
      → All Keeps actions
      → Ends s ps (serve file s actions ps)
  unfolding serve
  serve-Ends s [] ps h k = record { paired = h; keeps = tt; same = λ j. refl }
  serve-Ends s (a ∷ actions) [] h k = absurd h
  serve-Ends s (a ∷ actions) (p ∷ ps) h k = elim (Bool-cases (bit_and p.revents trouble == 0)) [
    | inr bad ↦ rw bad (record { paired = h; keeps = k; same = λ j. refl })
    | inl good ↦ elim (Bool-cases (bit_and p.revents p.events == 0)) [
      | inl quiet ↦
          rw (good, quiet)
            (AfterServe-cons s s a a p ps _ refl k.0 (λ j. refl) h.0
              (serve-Ends s actions ps h.1 k.1))
      | inr ready ↦
          let s1 = (a.callback s).1 in
          let next = serve-Ends s1 actions ps (Paired-SameFiles s s1 actions ps (k.0 s) h.1) k.1 in
          elim (Bool-cases (service_count file s a == service_count file s1 a)) [
            | inl busy ↦ rw (good, ready, busy) tt
            | inr moved_on ↦
                rw (good, ready, moved_on)
                  (replied-Ends s (a.callback s).0 a actions p ps _ h k next)
          ]
    ]
  ]

  Paired-append :
      (s : S) (actions : List (Action S)) (ps : List PollFd) (a : Action S) (p : PollFd)
      → Paired s actions ps
      → p.fd ≡ (file s a.object).fd
      → Paired s (actions ++ a ∷ []) (ps ++ p ∷ [])
  Paired-append s [] [] a p h e = (e, tt)
  Paired-append s [] (q ∷ ps) a p h e = absurd h
  Paired-append s (b ∷ actions) [] a p h e = absurd h
  Paired-append s (b ∷ actions) (q ∷ ps) a p h e = (h.0, Paired-append s actions ps a p h.1 e)

  -- `add_action` keeps an entry for each action, with its file's number.
  pub add_action-Paired :
      (s : S) (p : Poller S) (a : Action S)
      → Paired s p.actions p.pollfds
      → Paired s (add_action file s p a).actions (add_action file s p a).pollfds
  unfolding add_action
  add_action-Paired s p a h = Paired-append s p.actions p.pollfds a _ h refl
