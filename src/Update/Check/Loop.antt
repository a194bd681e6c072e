-- ===== src/Update/Check/Loop.antt =====
-- The loop of `acknowledgeUpdate`: that it ends, and what it has stored when it reports success.
use codearmory_blacksmith.Base.{
  ℕ, ◌+◌, ◌≤◌, ◌<◌, ◌≡◌, ◌≢◌, ap, ◌∙◌, Text, List, [], ◌∷◌, Bool, true, ◌&&◌, none, some, arith,
  ltb, length, Option-cases, Bool-cases, inl, inr,
}
use codearmory_blacksmith.Update.State.{State, state_after_acknowledgement}
use codearmory_blacksmith.Update.State.Acknowledge.{
  state_after_acknowledgement-IsAcknowledged, IsAcknowledged,
}
use codearmory_blacksmith.Update.Check.{acknowledged, decide_acknowledgement, digest_for_event_key}
use codearmory_blacksmith.Update.Check.Run.{
  CommitRun, commit_operation, Outcome, Acquire, acquired, busy, unavailable, end_of_round,
  may_retry, Round, acknowledge_rounds, AcknowledgeRun, acknowledge_update, ack_lock_wait_ms,
}

-- The clock after each round, as far as it can be read, is at least a millisecond later than after
-- the round before.
abbrev pub ticks : ℕ → List Round → Bool
ticks now [] = true
ticks now (r ∷ rest) = elim r.clock [ none ↦ true | some later ↦ ltb now later && ticks later rest ]

rounds_end :
    (event_key target : Text) (deadline now : ℕ) (rounds : List Round)
    → ticks now rounds ≡ true
    → now ≤ deadline
    → deadline < now + length rounds
    → acknowledge_rounds event_key target deadline rounds ≢ none
unfolding acknowledge_rounds
rounds_end event_key target deadline now [] t l h e = ground arith
rounds_end event_key target deadline now (r ∷ rest) t l h e =
    elim (Option-cases (end_of_round event_key target r.acquire r.commit)) [
      | inr (o, f) ↦ ground arith
      | inl f ↦ elim (Option-cases r.clock) [
        | inl g ↦ ground arith
        | inr (later, g) ↦ ground (arith, rounds_end event_key target deadline later rest)
      ]
    ]

-- If the clock advances by a millisecond or more in each round, more than 1200 rounds are enough:
-- the acknowledgement ends with a result.
pub acknowledge_update-ends :
    (run : AcknowledgeRun)
    → ((now : ℕ) → run.started ≡ some now → ticks now run.rounds ≡ true)
    → ack_lock_wait_ms < length run.rounds
    → acknowledge_update run ≢ none
unfolding acknowledge_update
acknowledge_update-ends run t h e = elim (Option-cases run.started) [
  | inl f ↦ ground arith
  | inr (now, f) ↦ elim (Option-cases (digest_for_event_key run.event_key)) [
    | inl g ↦ ground arith
    | inr (target, g) ↦ ground (
      arith,
      rounds_end run.event_key target (now + ack_lock_wait_ms) now run.rounds (t now f)
          (omega arith) (omega arith),
    )
  ]
]

committed-stored :
    (event_key target key : Text) (run : CommitRun) (s : State) (o : Outcome)
    → run.current ≡ some s
    → end_of_round event_key target acquired run ≡ some o
    → o.result ≡ acknowledged key
    → (key ≡ event_key) × (o.stored ≡ some (state_after_acknowledgement s target))
unfolding commit_operation decide_acknowledgement
committed-stored event_key target key run s o f e h = ground arith

end_of_round-stored :
    (event_key target key : Text) (a : Acquire) (run : CommitRun) (o : Outcome)
    → end_of_round event_key target a run ≡ some o
    → o.result ≡ acknowledged key
    → (key ≡ event_key) × (s s' : State) × (o.stored ≡ some s') × IsAcknowledged target s s'
unfolding commit_operation decide_acknowledgement
end_of_round-stored event_key target key unavailable run o e h = absurd (ground arith)
end_of_round-stored event_key target key busy run o e h = absurd (ground arith)
end_of_round-stored event_key target key acquired run o e h = elim (Option-cases run.current) [
  | inl f ↦ absurd (ground arith)
  | inr (s, f) ↦
      let (same, kept) = committed-stored event_key target key run s o f e h in
      (
        same,
        s,
        state_after_acknowledgement s target,
        kept,
        state_after_acknowledgement-IsAcknowledged s target,
      )
]

rounds_stored :
    (event_key target key : Text) (deadline : ℕ) (rounds : List Round) (o : Outcome)
    → acknowledge_rounds event_key target deadline rounds ≡ some o
    → o.result ≡ acknowledged key
    → (key ≡ event_key) × (s s' : State) × (o.stored ≡ some s') × IsAcknowledged target s s'
unfolding acknowledge_rounds
rounds_stored event_key target key deadline [] o e h = absurd (ground arith)
rounds_stored event_key target key deadline (r ∷ rest) o e h =
    elim (Option-cases (end_of_round event_key target r.acquire r.commit)) [
      | inr (u, f) ↦ end_of_round-stored event_key target key r.acquire r.commit o (ground arith) h
      | inl f ↦ elim (Bool-cases (may_retry deadline r.clock)) [
        | inl g ↦ rounds_stored event_key target key deadline rest o (ground arith) h
        | inr g ↦ absurd (ground arith)
      ]
    ]

-- An acknowledgement that reports success names the event key that it was given, which holds a
-- digest, and has stored the acknowledgement of that digest on a state.
pub acknowledge_update-stored :
    (run : AcknowledgeRun) (o : Outcome) (key : Text)
    → acknowledge_update run ≡ some o
    → o.result ≡ acknowledged key
    → (key ≡ run.event_key)
      × (target : Text) × (digest_for_event_key key ≡ some target)
      × (s s' : State) × (o.stored ≡ some s')
      × IsAcknowledged target s s'
unfolding acknowledge_update
acknowledge_update-stored run o key e h = elim (Option-cases run.started) [
  | inl f ↦ absurd (ground arith)
  | inr (now, f) ↦ elim (Option-cases (digest_for_event_key run.event_key)) [
    | inl g ↦ absurd (ground arith)
    | inr (target, g) ↦
        let (same, s, s', kept, done) =
          rounds_stored run.event_key target key (now + ack_lock_wait_ms) run.rounds o
            (ground arith) h in
        (same, target, ap digest_for_event_key same ∙ g, s, s', kept, done)
  ]
]
