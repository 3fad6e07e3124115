-- ===== src/Coordinator.antt =====
-- core/classes/sandbox_conversation.py: what stands between the ledger of a run and the model that
-- works in its sandbox. Each function is one step of the event loop; what Discord and the model
-- answer is an argument. Ids are read from ASCII digits.
pub mod Words
pub mod Gate
pub mod Patience
pub mod Placing
pub mod Replies
pub mod Questions
pub mod Answers
pub mod Waits
use discord_chat_bot.Prelude.{
  ℕ, ◌+◌, Bool, false, not, ◌&&◌, Option, none, some, List, [], ◌∷◌, ◌++◌, ltb, leb, ◌==◌,
  if◌then◌else◌, length, any, filter, map, min,
}
use discord_chat_bot.Text.{Text, codes, is_empty}
use discord_chat_bot.Text.Number.{show}
use discord_chat_bot.Ledger.{
  unacknowledged, ThreadEvent, OpenQuestion, RunLedger, is_received, same_id, is_unaddressed,
  unpresented, unaddressed,
}
use discord_chat_bot.Ledger.Stages.{mark_presented}
use discord_chat_bot.Coordinator.Words.{tags}

abbrev pub max_gate_refusals : ℕ
max_gate_refusals = 2

abbrev pub reply_send_attempts : ℕ
reply_send_attempts = 2

-- `staged` is the numbers that the next call shows, with the place they stand at.
pub record Coordinator : Type 0 where
  pub ledger : RunLedger
  pub staged : Option (List ℕ × ℕ)
  pub batch_ack : List ℕ
  pub model_calls : ℕ
  pub stale_blocked : ℕ
  pub continuations : ℕ
  pub unsent_replies : List Text
  pub nudged_files : Bool

abbrev pub new_coordinator : RunLedger → Coordinator
new_coordinator ledger = record {
  ledger = ledger;
  staged = none;
  batch_ack = [];
  model_calls = 0;
  stale_blocked = 0;
  continuations = 0;
  unsent_replies = [];
  nudged_files = false;
}

abbrev pub seqs_of : List ThreadEvent → List ℕ
seqs_of = map (λ e. e.seq)

-- An input of the model's: one of the SDK's items, or a thread message as it is rendered.
pub data Input {ℓ} (A : Type ℓ) : Type ℓ where
  item : A → Input A
  said : ThreadEvent → Input A

-- `sorted(..., key=seq)`, which is stable
unfoldable pub insert_event : ThreadEvent → List ThreadEvent → List ThreadEvent
insert_event e [] = e ∷ []
insert_event e (d ∷ es) = if ltb e.seq d.seq then e ∷ d ∷ es else d ∷ insert_event e es

unfoldable pub sort_events : List ThreadEvent → List ThreadEvent → List ThreadEvent
unfolding insert_event
sort_events sorted [] = sorted
sort_events sorted (e ∷ es) = sort_events (insert_event e sorted) es

-- an event that was shown stands at its anchor, or at the end if that is past it
abbrev pub is_placed_at : ℕ → ℕ → ThreadEvent → Bool
is_placed_at last i e = elim e.anchor [
  | none ↦ false
  | some anchor ↦ not (is_received e.stage) && min anchor last == i
]

unfoldable pub placed_at : RunLedger → ℕ → ℕ → List ThreadEvent
unfolding unpresented sort_events
placed_at l last i =
    let staged = if i == last then unpresented l else [] in
    sort_events [] (filter (is_placed_at last i) l.events ++ staged)

unfoldable pub place {ℓ} : {A : Type ℓ} → RunLedger → ℕ → ℕ → List A → List (Input A)
unfolding placed_at
place l last i [] = map said (placed_at l last i)
place l last i (x ∷ xs) = map said (placed_at l last i) ++ (item x ∷ place l last (i + 1) xs)

unfoldable pub input_filter {ℓ} : {A : Type ℓ} → Coordinator → List A → List (Input A) × Coordinator
unfolding place
input_filter c items =
    let anchor = length items in
    (
      place c.ledger anchor 0 items,
      record c { staged = some (seqs_of (unpresented c.ledger), anchor) },
    )

-- What a completed call has to do with the thread: a `respond_to_updates` with the ids that it
-- names, none if its arguments are no JSON, one whose arguments are JSON but not an object, or
-- anything else.
pub data OutputItem : Type 0 where
  respond_call : Option (List ℕ) → OutputItem
  not_object : OutputItem
  other_output : OutputItem

abbrev pub shown_waiting : RunLedger → List ℕ
shown_waiting l = seqs_of (filter (λ e. not (is_received e.stage)) (unaddressed l))

abbrev add_acked : List ℕ → Option (List ℕ) → Option (List ℕ)
add_acked ns none = none
add_acked ns (some ms) = some (ns ++ ms)

-- no ids stand for all that was shown and waits; none is an exception
unfoldable pub acked_ids : RunLedger → List OutputItem → Option (List ℕ)
acked_ids l [] = some []
acked_ids l (respond_call none ∷ output) = acked_ids l output
acked_ids l (respond_call (some []) ∷ output) = add_acked (shown_waiting l) (acked_ids l output)
acked_ids l (respond_call (some (n ∷ ns)) ∷ output) = add_acked (n ∷ ns) (acked_ids l output)
acked_ids l (not_object ∷ output) = none
acked_ids l (other_output ∷ output) = acked_ids l output

abbrev pub commit_staged : RunLedger → Option (List ℕ × ℕ) → ℕ → RunLedger
commit_staged l none now = l
commit_staged l (some (seqs, anchor)) now = (mark_presented l seqs anchor now).1

abbrev acks_or : List ℕ → Option (List ℕ) → List ℕ
acks_or ns none = ns
acks_or ns (some ms) = ms

-- the acknowledgements stay those of the response before if an exception comes
unfoldable pub on_model_response : Coordinator → List OutputItem → ℕ → Coordinator
unfolding acked_ids mark_presented
on_model_response c output now =
    let l = commit_staged c.ledger c.staged now in
    record c {
      ledger = l;
      staged = none;
      model_calls = c.model_calls + 1;
      batch_ack = acks_or c.batch_ack (acked_ids l output);
    }

abbrev pub is_acked : Coordinator → ThreadEvent → Bool
is_acked c e = any (λ n. n == e.seq) c.batch_ack

-- shown to the model, waiting, and in no `respond_to_updates` of its response
unfoldable pub is_pressing : Coordinator → ThreadEvent → Bool
unfolding is_unaddressed
is_pressing c e = is_unaddressed e && (not (is_received e.stage) && not (is_acked c e))

-- counted once for each response of the model
unfoldable pub count_refusal : Coordinator → ThreadEvent → ThreadEvent
count_refusal c e =
    if same_id e.last_refused_call (some c.model_calls)
    then e
    else record e { last_refused_call = some c.model_calls; gate_refusals = e.gate_refusals + 1 }

-- the gate's loop at one event: an event that is refused too often is given up
unfoldable pub press : Coordinator → ThreadEvent → ThreadEvent
unfolding is_pressing count_refusal
press c e =
    let counted = count_refusal c e in
    if is_pressing c e
    then if ltb max_gate_refusals counted.gate_refusals
      then record counted { outcome = some unacknowledged }
      else counted
    else e

unfoldable pub is_ignored : Coordinator → ThreadEvent → Bool
unfolding is_pressing count_refusal
is_ignored c e = is_pressing c e && leb (count_refusal c e).gate_refusals max_gate_refusals

abbrev pub waits_for_answer : Option OpenQuestion → Bool
waits_for_answer none = false
waits_for_answer (some q) = q.blocking && q.waiting

abbrev pub blocked : Coordinator → Coordinator
blocked c = record c { stale_blocked = c.stale_blocked + 1 }

abbrev pub refusal_prefix : Text
refusal_prefix = codes "Not run"

-- Why a gated tool does not run.
pub data Refusal : Type 0 where
  waiting_for_answer : Refusal
  new_messages : ℕ → Refusal
  unanswered : List ℕ → Refusal

unfoldable pub gate : Coordinator → Option Refusal × Coordinator
unfolding press is_ignored unaddressed
gate c =
    let unseen = filter (λ e. is_received e.stage) (unaddressed c.ledger) in
    let ignored = filter (is_ignored c) c.ledger.events in
    let pressed = record c {
      ledger = record c.ledger { events = map (press c) c.ledger.events };
    } in
    if waits_for_answer c.ledger.question
    then (some waiting_for_answer, blocked c)
    else if not (is_empty unseen)
    then (some (new_messages (length unseen)), blocked c)
    else if not (is_empty ignored)
    then (some (unanswered (seqs_of ignored)), blocked pressed)
    else (none, pressed)

unfoldable pub refusal_text : Text → Refusal → Text
refusal_text tool waiting_for_answer =
    refusal_prefix
    ++ codes
        ": you are waiting for the answer to your blocking question. Nothing else runs until it is answered or times out."
refusal_text tool (new_messages n) =
    refusal_prefix
    ++ (codes " ("
        ++ (tool
            ++ (codes "): "
                ++ (show n
                    ++ codes
                        " new thread message(s) arrived after you chose this action. You will see them next — respond to them with respond_to_updates, then redo this if it still makes sense."))))
refusal_text tool (unanswered ns) =
    refusal_prefix
    ++ (codes " ("
        ++ (tool
            ++ (codes "): thread message(s) "
                ++ (tags ns
                    ++ codes
                        " need a response first. Call respond_to_updates for them (in the same response as this tool is fine), then carry on."))))

-- What a gated call comes to: a refusal, or the tool runs in the state that is given.
pub data Gated : Type 0 where
  refused : Text → Coordinator → Gated
  runs : Coordinator → Gated

abbrev pub set_busy : Option ℕ → Coordinator → Coordinator
set_busy since c = record c { ledger = record c.ledger { busy_since = since } }

unfoldable pub run_gated : Coordinator → Text → Bool → ℕ → Gated
unfolding gate refusal_text
run_gated c tool busy now =
    let (refusal, c') = gate c in
    elim refusal [
      | some r ↦ refused (refusal_text tool r) c'
      | none ↦ runs (if busy then set_busy (some now) c' else c')
    ]

-- the tool has ended, however it did
unfoldable pub end_gated : Bool → Coordinator → Coordinator
end_gated busy c = if busy then set_busy none c else c
