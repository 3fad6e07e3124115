-- ===== src/Ledger/Stages.antt =====
-- RunLedger's transitions: presenting events, recording decisions, the open question, the
-- finalization boundary, and the report. Events are mutable objects of the record, each with a
-- number of its own; a change of one is a change of the entry with that number.
pub mod Valid
pub mod Decide
pub mod Report
use discord_chat_bot.Prelude.{
  ℕ, ◌+◌, Bool, true, false, not, ◌&&◌, Option, none, some, List, [], ◌∷◌, ◌++◌, ◌==◌,
  if◌then◌else◌, any, map,
}
use discord_chat_bot.Text.{Text, is_empty, or_else}
use discord_chat_bot.Ledger.{
  Stage, received, presented, addressed, resolved, Decision, will_apply, done, noted, Outcome,
  decided, unacknowledged, setup, running, finalizing, ThreadEvent, OpenQuestion, RunLedger,
  is_received, same_id, find_seq,
}

-- the entry with the event's number becomes the event
unfoldable pub put_event : ThreadEvent → List ThreadEvent → List ThreadEvent
put_event e [] = []
put_event e (d ∷ es) = if d.seq == e.seq then e ∷ es else d ∷ put_event e es

-- `mark_presented`: the loop, with the events shown
unfoldable pub present : ThreadEvent → ℕ → ℕ → ThreadEvent
present e anchor now = record e { stage = presented; anchor = some anchor; presented_at = some now }

unfoldable pub present_all : List ℕ → ℕ → ℕ → List ThreadEvent → List ThreadEvent × List ThreadEvent
unfolding find_seq put_event present
present_all [] anchor now es = ([], es)
present_all (n ∷ ns) anchor now es = elim (find_seq n es) [
  | none ↦ present_all ns anchor now es
  | some e ↦
      if is_received e.stage
      then (let (shown, es') = present_all ns anchor now (put_event (present e anchor now) es) in
          (present e anchor now ∷ shown, es'))
      else present_all ns anchor now es
]

unfoldable pub mark_presented : RunLedger → List ℕ → ℕ → ℕ → List ThreadEvent × RunLedger
unfolding present_all
mark_presented l seqs anchor now =
    let (shown, es) = present_all seqs anchor now l.events in (shown, record l { events = es })

-- DECISIONS: the stage that each decision moves an event to
unfoldable pub decision_stage : Decision → Stage
decision_stage will_apply = addressed
decision_stage _ = resolved

abbrev pub is_change : Decision → Bool
is_change will_apply = true
is_change done = true
is_change _ = false

abbrev pub or_now : Option ℕ → ℕ → ℕ
or_now none now = now
or_now (some t) now = t

unfoldable pub decide : ThreadEvent → Decision → Text → ℕ → ThreadEvent
unfolding decision_stage
decide e d reply now = record e {
  stage = decision_stage d;
  outcome = some (decided d);
  reply = or_else reply e.reply;
  addressed_at = some (or_now e.addressed_at now);
}

-- whether a decision on the event with the number is refused: it was never shown to the model
unfoldable pub never_shown : List ThreadEvent → ℕ → Bool
unfolding find_seq
never_shown es n = elim (find_seq n es) [ none ↦ true | some e ↦ is_received e.stage ]

-- the loop of `record_decision`: the updated events, the unknown numbers, and the record
unfoldable pub decide_all :
    List ℕ → Decision → Text → ℕ → List ThreadEvent → List ThreadEvent × List ℕ × List ThreadEvent
unfolding put_event decide find_seq
decide_all [] d reply now es = ([], [], es)
decide_all (n ∷ ns) d reply now es = elim (find_seq n es) [
  | none ↦ let (updated, unknown, es') = decide_all ns d reply now es in (updated, n ∷ unknown, es')
  | some e ↦
      if is_received e.stage
      then (let (updated, unknown, es') = decide_all ns d reply now es in
          (updated, n ∷ unknown, es'))
      else (let (updated, unknown, es') =
            decide_all ns d reply now (put_event (decide e d reply now) es) in
          (decide e d reply now ∷ updated, unknown, es'))
]

-- the open question, closed if an updated event was a candidate answer to it
unfoldable pub question_after : Option OpenQuestion → List ThreadEvent → Option OpenQuestion
question_after none updated = none
question_after (some q) updated =
    if any (λ e. same_id e.question_id (some q.qid)) updated then none else some q

unfoldable pub record_decision :
    RunLedger → List ℕ → Decision → Text → ℕ → List ThreadEvent × List ℕ × RunLedger
unfolding decide_all question_after
record_decision l seqs d reply now =
    let (updated, unknown, es) = decide_all seqs d reply now l.events in
    let changes = not (is_empty updated) && is_change d in
    (
      updated,
      unknown,
      record l {
        events = es;
        change_revision = if changes then l.change_revision + 1 else l.change_revision;
        question = question_after l.question updated;
      },
    )

unfoldable pub give_up_on : RunLedger → ThreadEvent → RunLedger
unfolding put_event
give_up_on l e = record l {
  events = put_event (record e { outcome = some unacknowledged }) l.events;
}

unfoldable pub open_question : RunLedger → Text → Bool → Text → ℕ → OpenQuestion × RunLedger
open_question l text blocking default now =
    let q : OpenQuestion = record {
      qid = l.next_qid;
      text = text;
      blocking = blocking;
      default = default;
      after_seq = l.revision;
      asked_at = now;
      message_id = none;
      waiting = false;
      timed_out = false;
    } in
    (q, record l { next_qid = l.next_qid + 1; question = some q })

unfoldable pub close_question : RunLedger → ℕ → RunLedger
close_question l qid = elim l.question [
  | none ↦ l
  | some q ↦ if q.qid == qid then record l { question = none } else l
]

unfoldable pub finalize : RunLedger → RunLedger
finalize l = elim l.state [
  | setup ↦ record l { state = finalizing }
  | running ↦ record l { state = finalizing }
  | _ ↦ l
]

-- What the coordinator does to a ledger between two messages.
pub data Transition : Type 0 where
  mark : List ℕ → ℕ → ℕ → Transition
  record_as : List ℕ → Decision → Text → ℕ → Transition
  give_up : ℕ → Transition
  ask : Text → Bool → Text → ℕ → Transition
  close : ℕ → Transition
  finish : Transition

-- the coordinator gives up on an event of the record
unfoldable pub give_up_at : RunLedger → ℕ → RunLedger
give_up_at l n = elim (find_seq n l.events) [ none ↦ l | some e ↦ give_up_on l e ]

unfoldable pub transition : RunLedger → Transition → RunLedger
unfolding give_up_at mark_presented record_decision give_up_on open_question close_question finalize
transition l (mark seqs anchor now) = (mark_presented l seqs anchor now).1
transition l (record_as seqs d reply now) = (record_decision l seqs d reply now).2
transition l (give_up n) = give_up_at l n
transition l (ask text blocking default now) = (open_question l text blocking default now).1
transition l (close qid) = close_question l qid
transition l finish = finalize l

-- The report's statuses: the model's own outcome, or what became of the message.
pub data Status : Type 0 where
  own : Decision → Status
  accepted_only ignored unseen late : Status

pub record Row : Type 0 where
  pub author : Text
  pub text : Text
  pub status : Status
  pub reply : Text

abbrev pub own_status : Option Outcome → Status
own_status (some (decided will_apply)) = accepted_only
own_status (some (decided d)) = own d
own_status (some unacknowledged) = ignored
own_status none = own noted

unfoldable pub status : ThreadEvent → Status
status e = elim e.outcome [
  | some unacknowledged ↦ ignored
  | _ ↦ elim e.stage [ received ↦ unseen | presented ↦ ignored | _ ↦ own_status e.outcome ]
]

unfoldable pub row : ThreadEvent → Row
unfolding status
row e = record { author = e.author_name; text = e.text; status = status e; reply = e.reply }

unfoldable pub late_row : ThreadEvent → Row
late_row e = record { author = e.author_name; text = e.text; status = late; reply = [] }

unfoldable pub outcomes : RunLedger → List Row
unfolding row late_row
outcomes l = map row l.events ++ map late_row l.follow_ups
