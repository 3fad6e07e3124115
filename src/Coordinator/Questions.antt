-- ===== src/Coordinator/Questions.antt =====
-- core/classes/sandbox_conversation.py: `ask_user`, its wait for a message, and the typing mark.
use discord_chat_bot.Prelude.{
  ℕ, Bool, true, false, not, Option, none, some, List, [], ◌∷◌, ◌++◌, leb, ◌==◌, if◌then◌else◌,
  take, filter, map,
}
use discord_chat_bot.Text.{Text, codes, is_empty, strip, join}
use discord_chat_bot.Text.Number.{show}
use discord_chat_bot.Ledger.{OpenQuestion, RunLedger, has_input_after}
use discord_chat_bot.Ledger.Stages.{open_question, close_question}
use discord_chat_bot.Coordinator.{Coordinator}

-- A change of the question object shows in the ledger as long as that is its question.
unfoldable pub on_question : ℕ → (OpenQuestion → OpenQuestion) → Coordinator → Coordinator
on_question qid f c = elim c.ledger.question [
  | none ↦ c
  | some q ↦
      if q.qid == qid then record c { ledger = record c.ledger { question = some (f q) } } else c
]

-- `str(c).strip()` of each choice, five of those that are not blank
unfoldable pub options_of : List Text → List Text
options_of choices = take 5 (filter (λ s. not (is_empty s)) (map strip choices))

abbrev pub options_line : List Text → List Text
options_line [] = []
options_line (o ∷ os) = (codes "Options: " ++ join (codes " · ") (o ∷ os)) ∷ []

abbrev pub default_line : Text → List Text
default_line [] = []
default_line (c ∷ s) = (codes "If I don't hear back, I'll go with: " ++ (c ∷ s)) ∷ []

abbrev pub footer_line : Bool → Text
footer_line blocking =
    codes "-# Reply in this thread — no @mention needed."
    ++ (if blocking then [] else codes " I'll keep working meanwhile.")

unfoldable pub question_text : Text → Bool → List Text → Text → Text
question_text question blocking choices default = take 1990 (
    join (10 ∷ []) (
      (codes "🤖 " ++ question)
      ∷ (options_line (options_of choices) ++ (default_line default ++ footer_line blocking ∷ []))))

abbrev pub posted_text : Text → Text
posted_text default =
    codes
      "Question posted. Keep working on anything that does not depend on it; a reply arrives as a thread message. Before the step it affects (or your final message), use the reply"
    ++ (if is_empty default
        then codes " or state the assumption you made."
        else codes " or your stated default (" ++ (default ++ codes ")."))

abbrev pub no_thread_text : Text
no_thread_text =
    codes "No interactive thread is available right now — proceed using your best judgement."

abbrev pub empty_question_text : Text
empty_question_text = codes "The question was empty, so nothing was asked."

abbrev pub unsent_text : Text
unsent_text =
    codes
      "Could not reach the user (failed to send the question) — proceed using your best judgement."

abbrev pub open_text : (Text → Text) → OpenQuestion → Text
open_text repr q =
    codes "You already have an open question ("
    ++ (repr (take 120 q.text)
        ++ codes "). Work with that one first; a reply will arrive as a thread message.")

-- The outcome of asking: the model is answered at once, or the call waits on the question.
pub data Asked : Type 0 where
  told : Text → Coordinator → Asked
  waits : OpenQuestion → Coordinator → Asked

-- the question that stands in the way of another
abbrev pub standing : Option OpenQuestion → Option OpenQuestion
standing none = none
standing (some q) = if q.timed_out then none else some q

-- after the question was sent, as the message with the id, or was not
unfoldable pub after_send : Option (Option ℕ) → OpenQuestion → Bool → Text → Coordinator → Asked
after_send none q blocking default c =
    told unsent_text (record c { ledger = close_question c.ledger q.qid })
after_send (some sent) q blocking default c =
    let c' = on_question q.qid (λ q. record q { message_id = sent }) c in
    if blocking
    then waits q (on_question q.qid (λ q. record q { waiting = true }) c')
    else told (posted_text default) c'

-- `thread` is what becomes of a text that is sent: none if that fails, or the message's id.
-- `meanwhile` is what the run's other tasks and the thread's people do to the conversation while the
-- question is sent.
unfoldable pub ask :
    (repr : Text → Text)
    → Option (Text → Option (Option ℕ))
    → (Coordinator → Coordinator)
    → Coordinator
    → Text
    → Bool
    → List Text
    → Text
    → ℕ
    → Asked
ask repr none meanwhile c question blocking choices default now = told no_thread_text c
ask repr (some send) meanwhile c question blocking choices default now =
    let text = strip question in
    let (q, l) = open_question c.ledger text blocking default now in
    let asked =
      after_send (send (question_text text blocking choices default)) q blocking default
        (meanwhile (record c { ledger = l })) in
    elim (standing c.ledger.question) [
      | some asking ↦
          if is_empty text then told empty_question_text c else told (open_text repr asking) c
      | none ↦ if is_empty text then told empty_question_text c else asked
    ]

abbrev pub replied_text : Text
replied_text =
    codes
      "New thread input arrived; you will see it next. Check whether it answers your question — it may be a correction or a new request instead — and call respond_to_updates for it."

abbrev pub timeout_text : ℕ → Text → Text
timeout_text timeout default =
    codes "No reply within "
    ++ (show timeout
        ++ (if is_empty default
            then codes
                "s. If you cannot continue without this, stop and say plainly in your final message that the task is blocked on it; otherwise make the most reasonable assumption and state it."
            else codes "s. Go with your stated default ("
              ++ (default
                  ++ codes
                      ") and say so in your final message. A late reply will still reach you as a thread message.")))

-- the rest of a blocking `ask` once the wait is over, in the state of then
unfoldable pub end_wait : OpenQuestion → Bool → ℕ → Coordinator → Text × Coordinator
end_wait q got timeout c =
    let c' = on_question q.qid (λ q. record q { waiting = false }) c in
    if got
    then (replied_text, c')
    else (timeout_text timeout q.default, on_question q.qid (λ q. record q { timed_out = true }) c')

-- What ends a sleep of the wait: a change of the ledger, or the deadline; with the ledger and the
-- clock of that moment.
pub data Wake : Type 0 where
  changed : RunLedger → ℕ → Wake
  expired : RunLedger → Wake

-- `wait_for_input` from the ledger and the clock of its start; none if it still sleeps
unfoldable pub wait_for_input : ℕ → ℕ → RunLedger → ℕ → List Wake → Option Bool
wait_for_input after_seq deadline l now [] =
    if has_input_after l after_seq then some true else if leb deadline now then some false else none
wait_for_input after_seq deadline l now (changed l' now' ∷ wakes) =
    let rest = wait_for_input after_seq deadline l' now' wakes in
    if has_input_after l after_seq then some true else if leb deadline now then some false else rest
wait_for_input after_seq deadline l now (expired l' ∷ wakes) =
    if has_input_after l after_seq
    then some true
    else if leb deadline now
    then some false
    else some (has_input_after l' after_seq)
