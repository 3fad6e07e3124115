-- ===== src/Coordinator/Replies.antt =====
-- core/classes/sandbox_conversation.py: `respond_to_updates`, and the nudge before a run may finish.
use discord_chat_bot.Prelude.{
  ℕ, zero, suc, ◌+◌, Bool, true, false, not, ◌&&◌, Option, none, some, List, [], ◌∷◌, ◌++◌, ltb,
  ◌==◌, if◌then◌else◌, take, filter, map,
}
use discord_chat_bot.Text.{Text, codes, is_empty, strip, or_else, join}
use discord_chat_bot.Ledger.{
  Stage, presented, addressed, Decision, will_apply, done, ThreadEvent, is_unacknowledged,
  unaddressed,
}
use discord_chat_bot.Ledger.Stages.{record_decision}
use discord_chat_bot.Coordinator.{Coordinator, seqs_of, reply_send_attempts, shown_waiting}
use discord_chat_bot.Coordinator.Words.{
  RawIds, parse_ids, normalize_decision, decision_names, decision_word, tags, generic_reply,
  has_mark,
}

-- `sends text n` is whether the attempt number n to send the text succeeds.
abbrev pub Thread : Type 0
Thread = Text → ℕ → Bool

unfoldable pub try_send : (ℕ → Bool) → ℕ → ℕ → Bool
try_send sends attempt zero = false
try_send sends attempt (suc left) =
    let again = try_send sends (attempt + 1) left in if sends attempt then true else again

unfoldable pub post : Option Thread → Text → Bool
post none text = false
post (some sends) text = try_send (sends (take 1900 text)) 0 reply_send_attempts

abbrev pub in_open_stage : Decision → Stage → Bool
in_open_stage d presented = true
in_open_stage done addressed = true
in_open_stage _ _ = false

abbrev pub all_open : Decision → List ThreadEvent → List ℕ
all_open d es =
    seqs_of (filter (λ e. in_open_stage d e.stage && not (is_unacknowledged e.outcome)) es)

abbrev pub ids_or_open : List ℕ → Decision → List ThreadEvent → List ℕ
ids_or_open [] d es = all_open d es
ids_or_open (n ∷ ns) d es = n ∷ ns

unfoldable pub with_mark : Text → Text
with_mark text = if has_mark text then text else codes "🐳 " ++ text

abbrev pub is_will_apply : Decision → Bool
is_will_apply will_apply = true
is_will_apply _ = false

abbrev pub recorded_part : Decision → List ThreadEvent → Bool → Text
recorded_part d updated posted =
    codes "Recorded '"
    ++ (decision_word d
        ++ (codes "' for "
            ++ (tags (seqs_of updated)
                ++ (if posted
                    then codes " and posted your reply."
                    else codes
                        "; the reply could not be posted now and will be included in the closing message."))))

abbrev pub apply_part : Decision → List Text
apply_part d =
    if is_will_apply d
    then codes
        "Make the change, then mark it 'done' — or say in your final message if you could not."
      ∷ []
    else []

abbrev pub unknown_part : List ℕ → List Text
unknown_part [] = []
unknown_part (n ∷ ns) =
    (codes "No message "
      ++ (tags (n ∷ ns) ++ codes " has been shown to you, so nothing was recorded for it."))
    ∷ []

abbrev pub left_part : List ℕ → List Text
left_part [] = []
left_part (n ∷ ns) = (codes "Still waiting for a response: " ++ (tags (n ∷ ns) ++ codes ".")) ∷ []

-- What the model is told, what is posted in the thread, and the state after.
pub record Told : Type 0 where
  pub text : Text
  pub posted : Option Text
  pub after : Coordinator

abbrev pub told_only : Text → Coordinator → Told
told_only text c = record { text = text; posted = none; after = c }

unfoldable pub reply_of : Decision → Text → List ThreadEvent → Text
reply_of d reply updated = with_mark (or_else (strip reply) (generic_reply d updated))

-- The part of `respond` after the ledger has recorded the decision. `meanwhile` is what the run's
-- other tasks do to the conversation while the reply is sent.
unfoldable pub tell :
    Option Thread
    → (Coordinator → Coordinator)
    → Decision
    → Text
    → List ThreadEvent
    → List ℕ
    → Coordinator
    → Told
tell thread meanwhile d reply [] unknown c =
    told_only (join (codes " ") (unknown_part unknown ++ left_part (shown_waiting c.ledger))) c
tell thread meanwhile d reply (e ∷ es) unknown c =
    let text = reply_of d reply (e ∷ es) in
    let sent = meanwhile c in
    let posted = post thread text in
    record {
      text = join (codes " ") (
          recorded_part d (e ∷ es) posted
          ∷ (apply_part d ++ (unknown_part unknown ++ left_part (shown_waiting sent.ledger))));
      posted = if posted then some (take 1900 text) else none;
      after =
          if posted
          then sent
          else record sent { unsent_replies = sent.unsent_replies ++ text ∷ [] };
    }

abbrev pub nothing_waits : Text
nothing_waits = codes "There are no thread messages waiting for a response."

unfoldable pub respond_as :
    Option Thread → (Coordinator → Coordinator) → Coordinator → List ℕ → Decision → Text → ℕ → Told
respond_as thread meanwhile c [] d reply now = told_only nothing_waits c
respond_as thread meanwhile c (n ∷ ns) d reply now =
    let (updated, unknown, l) = record_decision c.ledger (n ∷ ns) d (strip reply) now in
    tell thread meanwhile d reply updated unknown (record c { ledger = l })

-- `lower` is `str.lower`, `repr` is Python's
unfoldable pub respond :
    (lower repr : Text → Text)
    → Option Thread
    → (Coordinator → Coordinator)
    → Coordinator
    → RawIds
    → Text
    → Text
    → ℕ
    → Told
respond lower repr thread meanwhile c message_ids decision reply now =
    elim (normalize_decision lower decision) [
      | none ↦
          told_only
            (codes "Unknown decision "
              ++ (repr decision
                  ++ (codes ". Use one of: "
                      ++ (join (codes ", ") (map (λ d. d.0) decision_names)
                          ++ codes ". Nothing was recorded."))))
            c
      | some d ↦
          respond_as thread meanwhile c (ids_or_open (parse_ids message_ids) d c.ledger.events) d
            reply now
    ]

-- A file that the model attached, with the change it was attached after.
pub record Deliverable : Type 0 where
  pub path : Text
  pub change_revision : ℕ

abbrev pub paths : List Deliverable → Text
paths ds = join (codes ", ") (map (λ d. d.path) ds)

abbrev pub unanswered_part : List ThreadEvent → List Text
unanswered_part [] = []
unanswered_part (e ∷ es) =
    (codes "Before you finish: thread message(s) "
      ++ (tags (seqs_of (e ∷ es))
          ++ codes
              " have not been answered. Call respond_to_updates for them, make any change they ask for, then write your final message again."))
    ∷ []

unfoldable pub old_files : ℕ → List Deliverable → List Deliverable
old_files rev ds = filter (λ d. ltb d.change_revision rev) ds

unfoldable pub new_files : ℕ → List Deliverable → List Deliverable
new_files rev ds = filter (λ d. not (ltb d.change_revision rev)) ds

unfoldable pub mixes_files : Coordinator → List Deliverable → Bool
mixes_files c ds =
    let rev = c.ledger.change_revision in
    not c.nudged_files
    && (not (rev == 0) && (not (is_empty (old_files rev ds)) && not (is_empty (new_files rev ds))))

abbrev pub files_part : List Deliverable → List Deliverable → Text
files_part old new =
    codes "You attached "
    ++ (paths old
        ++ (codes " before accepting a change and "
            ++ (paths new
                ++ codes
                    " after it, so both would be sent. Remove any outdated file with attach_file(path, remove=true) — or attach it again if it is still right — then write your final message again.")))

abbrev pub text_of_parts : List Text → Option Text
text_of_parts [] = none
text_of_parts (p ∷ ps) = some (join (10 ∷ 10 ∷ []) (p ∷ ps))

unfoldable pub continuation_nudge : Coordinator → List Deliverable → Option Text × Coordinator
continuation_nudge c ds =
    let rev = c.ledger.change_revision in
    let waiting = unanswered_part (unaddressed c.ledger) in
    if mixes_files c ds
    then (
      text_of_parts (waiting ++ files_part (old_files rev ds) (new_files rev ds) ∷ []),
      record c { nudged_files = true },
    )
    else (text_of_parts waiting, c)
