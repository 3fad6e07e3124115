-- ===== src/Ledger/Stages/Report.antt =====
-- The report at the end of a run, and what it says of each event.
use discord_chat_bot.Prelude.{
  ℕ, ◌≡◌, ◌⊎◌, inl, inr, refl, true, false, Option, none, some, List, [], ◌∷◌, ◌==◌, All,
  Bool-cases, Option-cases, arith,
}
use discord_chat_bot.Text.{Text}
use discord_chat_bot.Ledger.{
  Stage, received, presented, addressed, resolved, Decision, will_apply, done, answered, noted,
  declined, superseded, deferred, Outcome, decided, unacknowledged, ThreadEvent, RunLedger,
  is_unresolved, is_resolved, is_received, find_seq,
}
use discord_chat_bot.Ledger.Stages.{
  put_event, present, present_all, decision_stage, decide, decide_all, close_question, finalize,
  accepted_only, ignored, unseen, status, Transition, mark, record_as, give_up, ask, close, finish,
  transition, give_up_at,
}
use discord_chat_bot.Ledger.Stages.Valid.{find_seq-All}

-- The outcome that goes with each stage: none before the model decides, a promise while the
-- event is addressed, another decision once it is resolved; and anywhere the mark "ignored".
abbrev pub Fits : Stage → Option Outcome → Type 0
Fits s (some unacknowledged) = Unit
Fits received none = Unit
Fits presented none = Unit
Fits addressed (some (decided will_apply)) = Unit
Fits resolved (some (decided done)) = Unit
Fits resolved (some (decided answered)) = Unit
Fits resolved (some (decided noted)) = Unit
Fits resolved (some (decided declined)) = Unit
Fits resolved (some (decided superseded)) = Unit
Fits resolved (some (decided deferred)) = Unit
Fits _ _ = ⊥

abbrev pub IsHonest : RunLedger → Type 0
IsHonest l = All (λ e. Fits e.stage e.outcome) l.events

put_event-All :
    (P : ThreadEvent → Type 0) (new : ThreadEvent) (es : List ThreadEvent)
    → P new
    → All P es
    → All P (put_event new es)
unfolding put_event
put_event-All P new [] p h = h
put_event-All P new (d ∷ es) p h = elim (Bool-cases (d.seq == new.seq)) [
  | inl e ↦ rw e (p, h.1)
  | inr e ↦ rw e (h.0, put_event-All P new es p h.1)
]

present-Fits : (s : Stage) (o : Option Outcome) → is_received s ≡ true → Fits s o → Fits presented o
present-Fits received none q h = tt
present-Fits received (some (decided d)) q h = absurd h
present-Fits received (some unacknowledged) q h = tt
present-Fits presented o q h = cc
present-Fits addressed o q h = cc
present-Fits resolved o q h = cc

decide-Fits : (d : Decision) → Fits (decision_stage d) (some (decided d))
unfolding decision_stage
decide-Fits will_apply = tt
decide-Fits _ = tt

ignored-Fits : (s : Stage) → Fits s (some unacknowledged)
ignored-Fits received = tt
ignored-Fits _ = tt

abbrev AllFit : List ThreadEvent → Type 0
AllFit = All (λ e. Fits e.stage e.outcome)

present_all-Fits :
    (ns : List ℕ) (anchor now : ℕ) (es : List ThreadEvent)
    → AllFit es
    → AllFit (present_all ns anchor now es).1
unfolding present_all
present_all-Fits [] anchor now es h = h
present_all-Fits (n ∷ ns) anchor now es h = elim (Option-cases (find_seq n es)) [
  | inl f ↦ rw (f, present_all) (present_all-Fits ns anchor now es h)
  | inr (e, f) ↦ elim (Bool-cases (is_received e.stage)) [
    | inl q ↦
        rw (f, present_all, q)
          (present_all-Fits ns anchor now (put_event (present e anchor now) es) (
            put_event-All (λ e. Fits e.stage e.outcome) (present e anchor now) es
              (unfold present in
                present-Fits e.stage e.outcome q
                  (find_seq-All (λ e. Fits e.stage e.outcome) n es e f h))
              h))
    | inr q ↦ rw (f, present_all, q) (present_all-Fits ns anchor now es h)
  ]
]

decide_all-Fits :
    (ns : List ℕ) (d : Decision) (reply : Text) (now : ℕ) (es : List ThreadEvent)
    → AllFit es
    → AllFit (decide_all ns d reply now es).2
unfolding decide_all
decide_all-Fits [] d reply now es h = h
decide_all-Fits (n ∷ ns) d reply now es h = elim (Option-cases (find_seq n es)) [
  | inl f ↦ rw (f, decide_all) (decide_all-Fits ns d reply now es h)
  | inr (e, f) ↦ elim (Bool-cases (is_received e.stage)) [
    | inl q ↦ rw (f, decide_all, q) (decide_all-Fits ns d reply now es h)
    | inr q ↦
        rw (f, decide_all, q)
          (decide_all-Fits ns d reply now (put_event (decide e d reply now) es) (
            put_event-All (λ e. Fits e.stage e.outcome) (decide e d reply now) es
              (unfold decide in decide-Fits d) h))
  ]
]

-- Every transition keeps each event's outcome in step with its stage.
pub transition-IsHonest : (l : RunLedger) (t : Transition) → IsHonest l → IsHonest (transition l t)
unfolding transition
transition-IsHonest l (mark seqs anchor now) h = present_all-Fits seqs anchor now l.events h
transition-IsHonest l (record_as seqs d reply now) h = decide_all-Fits seqs d reply now l.events h
transition-IsHonest l (give_up n) h = elim (Option-cases (find_seq n l.events)) [
  | inl f ↦ rw (f, give_up_at) h
  | inr (e, f) ↦
      rw (f, give_up_at)
        (put_event-All (λ e. Fits e.stage e.outcome) (record e { outcome = some unacknowledged })
          l.events (ignored-Fits e.stage) h)
]
transition-IsHonest l (ask text blocking default now) h = h
transition-IsHonest l (close qid) h = elim (Option-cases l.question) [
  | inl f ↦ rw (f, close_question) h
  | inr (q, f) ↦ elim (Bool-cases (q.qid == qid)) [
    | inl e ↦ rw (f, close_question, e) h
    | inr e ↦ rw (f, close_question, e) h
  ]
]
transition-IsHonest l finish h = rw (finalize_events l) h
  where
    finalize_events : (l : RunLedger) → (finalize l).events ≡ l.events
    finalize_events l = ground arith

-- What the stage and the outcome of an unresolved event can be.
unresolved_cases :
    (s : Stage) (o : Option Outcome)
    → Fits s o
    → is_resolved s ≡ false
    → (s ≡ received)
      ⊎ ((s ≡ presented) ⊎ ((o ≡ some (decided will_apply)) ⊎ (o ≡ some unacknowledged)))
unresolved_cases received o f h = inl refl
unresolved_cases presented o f h = inr (inl refl)
unresolved_cases addressed none f h = absurd f
unresolved_cases addressed (some unacknowledged) f h = inr (inr (inr refl))
unresolved_cases addressed (some (decided will_apply)) f h = inr (inr (inl refl))
unresolved_cases addressed (some (decided d)) f h = absurd f
unresolved_cases resolved o f h = cc

-- The report gives an unresolved event a status that says so.
pub status_unresolved :
    (e : ThreadEvent)
    → Fits e.stage e.outcome
    → is_unresolved e ≡ true
    → (status e ≡ unseen) ⊎ ((status e ≡ ignored) ⊎ (status e ≡ accepted_only))
unfolding status is_unresolved
status_unresolved e f h = ground (arith, unresolved_cases e.stage e.outcome f)
