-- ===== src/Tests/CoordinatorRuns.antt =====
-- A run with one message that the model has seen and another that it has not.
use discord_chat_bot.Prelude.{
  ℕ, ◌+◌, ◌≡◌, refl, Bool, true, false, Option, none, some, List, [], ◌∷◌, filter, lookup,
  ℕ_discrete,
}
use discord_chat_bot.Text.{
  codes, is_space, lstrip, rstrip, strip, split, split_from, join, Text-discrete,
}
use discord_chat_bot.Text.Number.{show}
use discord_chat_bot.Ledger.{
  Stage, received, presented, will_apply, ThreadEvent, OpenQuestion, is_unaddressed, unpresented,
  unaddressed, find_seq, has_input_after,
}
use discord_chat_bot.Ledger.Runs.{new_ledger}
use discord_chat_bot.Ledger.Stages.{
  put_event, present, present_all, mark_presented, decision_stage, decide, decide_all,
  question_after, record_decision, open_question, close_question,
}
use discord_chat_bot.Coordinator.{
  Coordinator, new_coordinator, item, said, insert_event, sort_events, placed_at, place,
  input_filter, respond_call, acked_ids, on_model_response, is_pressing, count_refusal, press,
  is_ignored, gate, new_messages, unanswered,
}
use discord_chat_bot.Coordinator.Words.{
  one, several, numbers_from, parse_ids, normalize_decision, tags, generic_reply, render_event,
}
use discord_chat_bot.Coordinator.Gate.{AllSeen, Answered, IsClear}
use discord_chat_bot.Coordinator.Patience.{IsIgnoredFor, ignoring_round}
use discord_chat_bot.Coordinator.Placing.{items, messages, count, has_place, input_filter-places}
use discord_chat_bot.Coordinator.Replies.{
  Thread, try_send, post, with_mark, reply_of, tell, respond_as, respond, ids_or_open, old_files,
  new_files, mixes_files, continuation_nudge,
}
use discord_chat_bot.Coordinator.Answers.{IsDelivered, IsAnswered, respond-IsAnswered}
use discord_chat_bot.Coordinator.Questions.{
  on_question, options_of, question_text, told, Asked, waits, after_send, ask, end_wait, changed,
  expired, wait_for_input,
}
use discord_chat_bot.Coordinator.Waits.{IsHeard, wait_for_input-ends}

program : Unit {0}
unfolding is_space lstrip rstrip strip split split_from join Text-discrete ℕ_discrete lookup show
    is_unaddressed unpresented unaddressed find_seq has_input_after new_ledger put_event present
    present_all mark_presented decision_stage decide decide_all question_after record_decision
    open_question close_question insert_event sort_events placed_at place input_filter acked_ids
    on_model_response is_pressing count_refusal press is_ignored gate numbers_from parse_ids
    normalize_decision tags generic_reply render_event AllSeen Answered IsClear IsIgnoredFor
    ignoring_round count try_send post with_mark reply_of tell respond_as respond old_files
    new_files mixes_files continuation_nudge IsDelivered IsAnswered on_question options_of
    question_text after_send ask end_wait wait_for_input IsHeard
program = tt

abbrev message : ℕ → Stage → Option ℕ → ThreadEvent
message n stage anchor = record {
  seq = n;
  message_id = some (100 + n);
  author_id = some 7;
  author_name = codes "Ann";
  text = codes "make it green";
  is_requester = true;
  received_at = n;
  reply_to = none;
  has_attachments = false;
  stage = stage;
  outcome = none;
  reply = [];
  anchor = anchor;
  presented_at = none;
  addressed_at = none;
  gate_refusals = 0;
  last_refused_call = none;
  question_id = none;
}

abbrev with_events : List ThreadEvent → Coordinator
with_events es = new_coordinator (record (new_ledger 5 (some 7) (some 1)) { events = es })

abbrev shown_one : Coordinator
shown_one = with_events (message 1 presented (some 1) ∷ [])

abbrev both : Coordinator
both = with_events (message 1 presented (some 1) ∷ message 2 received none ∷ [])

words_test :
    (parse_ids (several (codes "3" ∷ codes "#14" ∷ [])) ≡ 3 ∷ 14 ∷ [])
    × (normalize_decision (λ s. s) (codes " will-apply ") ≡ some will_apply)
    × (tags (3 ∷ 4 ∷ []) ≡ codes "#3, #4")
unfolding program
words_test = (refl, refl, refl)

render_test :
    render_event (message 1 presented none) shown_one.ledger
    ≡ codes "[thread message #1 from Ann (the requester)]:\nmake it green"
unfolding program
render_test = refl

gate_test :
    ((gate both).0 ≡ some (new_messages 1))
    × ((gate shown_one).0 ≡ some (unanswered (1 ∷ [])))
    × ((gate (on_model_response shown_one (respond_call (some []) ∷ []) 9)).0 ≡ none)
unfolding program
gate_test = (refl, refl, refl)

-- the message is in the batch that asks for the tool
abbrev responding : Coordinator
responding = on_model_response shown_one (respond_call (some []) ∷ []) 9

ignored_test :
    ((ignoring_round shown_one 5).0 ≡ some (unanswered (1 ∷ [])))
    × ((ignoring_round (ignoring_round shown_one 5).1 6).0 ≡ some (unanswered (1 ∷ [])))
unfolding program
ignored_test = (refl, refl)

abbrev given : List ℕ
given = 10 ∷ 20 ∷ []

place_test :
    (input_filter both given).0
    ≡ item 10 ∷ said (message 1 presented (some 1)) ∷ item 20 ∷ said (message 2 received none) ∷ []
unfolding program
place_test = refl

input_filter-places_example :
    (items (input_filter both given).0 ≡ given)
    × (count (λ e. true) (messages (input_filter both given).0)
        ≡ count (λ e. true) (filter has_place both.ledger.events)
          + count (λ e. true) (unpresented both.ledger))
input_filter-places_example = input_filter-places (λ e. true) both given

-- a thread that does not answer
abbrev silent : Thread
silent s n = false

lower_will_apply : normalize_decision (λ s. s) (codes "ack") ≡ some will_apply
unfolding program
lower_will_apply = refl

one_id : ids_or_open (parse_ids (one (codes "#1"))) will_apply shown_one.ledger.events ≡ 1 ∷ []
unfolding program
one_id = refl

-- another reply is kept while this one is sent
abbrev meanwhile : Coordinator → Coordinator
meanwhile c = record c { unsent_replies = codes "another" ∷ [] }

respond-IsAnswered_example :
    IsAnswered
      (some silent)
      meanwhile
      (record shown_one {
        ledger = (record_decision shown_one.ledger (1 ∷ []) will_apply (strip []) 9).2;
      })
      (respond
        (λ s. s)
        (λ s. s)
        (some silent)
        meanwhile
        shown_one
        (one (codes "#1"))
        (codes "ack")
        []
        9)
      will_apply
      []
      (record_decision shown_one.ledger (1 ∷ []) will_apply (strip []) 9).0
respond-IsAnswered_example =
    respond-IsAnswered (some silent) meanwhile (λ s. s) (λ s. s) shown_one (one (codes "#1"))
      (codes "ack") [] 9 will_apply 1 [] lower_will_apply one_id

unsent_test :
    (respond
      (λ s. s)
      (λ s. s)
      (some silent)
      meanwhile
      shown_one
      (one (codes "#1"))
      (codes "ack")
      (codes "on it")
      9).after.unsent_replies
    ≡ codes "another" ∷ codes "🐳 on it" ∷ []
unfolding program
unsent_test = refl

wait_for_input-ends_example :
    (got : Bool) × (wait_for_input 1 20 shown_one.ledger 5
        (changed both.ledger 6 ∷ expired both.ledger ∷ [])
      ≡ some got)
    × IsHeard 1 shown_one.ledger (changed both.ledger 6 ∷ expired both.ledger ∷ []) got
wait_for_input-ends_example =
    wait_for_input-ends 1 20 shown_one.ledger 5 (changed both.ledger 6 ∷ expired both.ledger ∷ [])
      refl

-- a question that is sent as the message 77
abbrev asked : Asked
asked =
    ask (λ s. s) (some (λ s. some (some 77))) (λ c. c) shown_one (codes "Which color?") true
      (codes "red" ∷ codes "blue" ∷ []) (codes "red") 9

abbrev question_of : Asked → Option OpenQuestion
question_of (told s c) = none
question_of (waits q c) = some q

abbrev state_of : Asked → Coordinator
state_of (told s c) = c
state_of (waits q c) = c

abbrev color : OpenQuestion
color = record {
  qid = 1;
  text = codes "Which color?";
  blocking = true;
  default = codes "red";
  after_seq = 0;
  asked_at = 9;
  message_id = none;
  waiting = false;
  timed_out = false;
}

asked_waits : asked ≡ waits color (state_of asked)
unfolding program
asked_waits = refl
