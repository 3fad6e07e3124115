-- ===== src/Tests/LedgerRuns.antt =====
-- A run in a thread: its messages, the model's decisions, its end, and the next run's preamble.
use discord_chat_bot.Prelude.{
  ◌*◌, ◌⊎◌, arith, ℕ, ◌+◌, ◌≤◌, ◌<◌, ◌≡◌, ◌↔◌, refl, Bool, false, none, some, List, [], ◌∷◌, ◌++◌,
  length, map, filter, All, lookup, ℕ_discrete,
}
use discord_chat_bot.Text.{Text, codes, is_space, lstrip, rstrip, strip, split, split_from, join}
use discord_chat_bot.Dict.{set, remove}
use discord_chat_bot.Ledger.{
  will_apply, accepted, duplicate, finishing, max_author_chars, ThreadEvent, RunLedger,
  is_unaddressed, is_unresolved, unpresented, unaddressed, unresolved, find_seq, get,
  has_input_after,
}
use discord_chat_bot.Ledger.Intake.{
  is_framing, blank_framing, clean_author, real_id, seen_message, Message, new_event, compact_from,
  compact, candidate, accept, chars, deliver_open, deliver_late, deliver_text, deliver,
}
use discord_chat_bot.Ledger.Intake.Accept.{Admits, deliver-accepted, unresolved-deliver}
use discord_chat_bot.Ledger.Intake.Author.{IsPlain, clean_author-IsPlain}
use discord_chat_bot.Ledger.Stages.{
  put_event, present, present_all, mark_presented, decision_stage, decide, never_shown, decide_all,
  question_after, record_decision, give_up_on, open_question, close_question, finalize, status, row,
  late_row, outcomes, give_up_at, transition, mark, record_as, finish, accepted_only, unseen, late,
}
use discord_chat_bot.Ledger.Stages.Decide.{decided_event, mem, record_decision_lem}
use discord_chat_bot.Ledger.Stages.Report.{IsHonest}
use discord_chat_bot.Ledger.Life.{Step, message, move, step, live, IsSound, live-IsSound}
use discord_chat_bot.Ledger.Runs
use discord_chat_bot.Ledger.Runs.{
  World, new_ledger, drop_run, owner_done, get_run, claim_run, release_run,
}
use discord_chat_bot.Ledger.Runs.Claims.{held}
use discord_chat_bot.Ledger.Runs.Kept.{
  Call, claims, delivers, releases, looks, call_all, IsApart, claim_run-exclusive,
}
use discord_chat_bot.Conversation.{
  carries, Item, Record, item, clip_question, build_record, saved, max_record_items, label,
  item_line, question_lines, preamble_of, resume_preamble,
}
use discord_chat_bot.Conversation.Carry.{carried_event, HasNoRoom, saved-outcomes}

-- Everything that a test computes with.
program : Unit {0}
unfolding is_space lstrip rstrip strip split split_from join set remove is_unaddressed is_unresolved
    unpresented unaddressed unresolved find_seq get has_input_after is_framing blank_framing
    clean_author seen_message new_event compact_from compact candidate accept chars deliver_open
    deliver_late deliver_text deliver put_event present present_all mark_presented decision_stage
    decide never_shown decide_all question_after record_decision give_up_on open_question
    close_question finalize status row late_row outcomes give_up_at transition step live new_ledger
    drop_run owner_done get_run claim_run release_run Runs.deliver Runs.is_run_active carries item
    clip_question build_record label item_line question_lines preamble_of resume_preamble lookup
    ℕ_discrete
program = tt

abbrev says : ℕ → Text → Message
says id text = record {
  message_id = some id;
  author_id = some 7;
  author_name = codes "Ann [x]: `y`";
  text = text;
  reply_to = none;
  has_attachments = false;
}

abbrev claimed : RunLedger
claimed = new_ledger 5 (some 7) (some 1)

author_test : clean_author (codes "Ann [x]:  `y`") ≡ codes "Ann x y"
unfolding program
author_test = refl

deliver_test :
    ((deliver claimed (says 3 (codes "  make it green ")) 10).0 ≡ accepted)
    × ((deliver (deliver claimed (says 3 (codes "a")) 10).1 (says 3 (codes "b")) 11).0 ≡ duplicate)
    × ((deliver (finalize claimed) (says 4 (codes "late")) 12).0 ≡ finishing)
unfolding program
deliver_test = (refl, refl, refl)

abbrev green : Message
green = says 3 (codes "  make it green ")

green_accepted : (deliver claimed green 10).0 ≡ accepted
unfolding program
green_accepted = refl

-- a message, the model's promise, another message, and the boundary
abbrev script : List Step
script =
    message green 10
    ∷ move (mark (1 ∷ []) 0 11)
    ∷ move (record_as (1 ∷ 9 ∷ []) will_apply [] 12)
    ∷ message (says 4 (codes "and big")) 13
    ∷ move finish
    ∷ message (says 6 (codes "too late")) 14
    ∷ []

abbrev ended : RunLedger
ended = live claimed script

ended_test :
    (length (unresolved ended) ≡ 2)
    × (length ended.follow_ups ≡ 1)
    × (map (λ r. r.status) (outcomes ended) ≡ accepted_only ∷ unseen ∷ late ∷ [])
unfolding program
ended_test = (refl, refl, refl)

unresolved-deliver_example :
    (e : ThreadEvent) × (unresolved (deliver claimed green 10).1 ≡ unresolved claimed ++ e ∷ [])
    × (e.text ≡ strip green.text)
    × (e.seq ≡ claimed.revision + 1)
    × (e.message_id ≡ real_id green.message_id)
unresolved-deliver_example = unresolved-deliver claimed green 10 green_accepted

deliver-accepted_example : ((deliver claimed green 10).0 ≡ accepted) ↔ Admits claimed green
deliver-accepted_example = deliver-accepted claimed green 10

live-IsSound_example : IsSound (live (new_ledger 5 (some 7) (some 1)) script)
live-IsSound_example = live-IsSound 5 (some 7) (some 1) script

clean_author-IsPlain_example :
    All IsPlain (clean_author (codes "[a]: b"))
    × (0 < length (clean_author (codes "[a]: b")))
    × (length (clean_author (codes "[a]: b")) ≤ max_author_chars)
clean_author-IsPlain_example = clean_author-IsPlain (codes "[a]: b")

abbrev shown : RunLedger
shown = live claimed (message green 10 ∷ move (mark (1 ∷ []) 0 11) ∷ [])

record_decision_lem_example :
    (get (record_decision shown (1 ∷ 9 ∷ []) will_apply [] 12).2 1
      ≡ decided_event will_apply [] 12 (mem 1 (1 ∷ 9 ∷ [])) (get shown 1))
    × ((record_decision shown (1 ∷ 9 ∷ []) will_apply [] 12).1
        ≡ filter (never_shown shown.events) (1 ∷ 9 ∷ []))
record_decision_lem_example = record_decision_lem will_apply [] 12 shown (1 ∷ 9 ∷ []) 1

ended-IsHonest : IsHonest ended
ended-IsHonest = (live-IsSound 5 (some 7) (some 1) script).honest

-- a record's size, for a test
abbrev bytes : Record → ℕ
bytes r = length r.carry * 2000

saved-outcomes_example :
    (older : List Item) × (dropped : List Item) × (older
        ++ (dropped ++ (saved bytes (build_record (outcomes ended) (codes "ok") none)).carry)
      ≡ map item (map row (filter carried_event ended.events) ++ map late_row ended.follow_ups))
    × ((older ≡ [])
        ⊎ (length (dropped ++ (saved bytes (build_record (outcomes ended) (codes "ok") none)).carry)
            ≡ max_record_items))
    × HasNoRoom bytes
        (build_record (outcomes ended) (codes "ok") none)
        dropped
        (saved bytes (build_record (outcomes ended) (codes "ok") none)).carry
    × (filter is_unresolved (filter carried_event ended.events) ≡ unresolved ended)
saved-outcomes_example = saved-outcomes bytes ended (codes "ok") none ended-IsHonest

-- an empty registry, in which task 1 claims thread 5
abbrev start : World
start = record { runs = []; ledger = λ r. new_ledger 0 none none; fresh = 0 }

abbrev nobody : ℕ → Bool
nobody task = false

abbrev owned : World
owned = (claim_run nobody start 5 (some 7) (some 1)).1

owned_claim : (claim_run nobody start 5 (some 7) (some 1)).0 ≡ some 0
unfolding program
owned_claim = refl

owned-held : held owned 5 ≡ some 0
unfolding program
owned-held = refl

-- what others do while the run works
abbrev others : List Call
others =
    claims nobody 6 none (some 3) ∷ delivers nobody 5 green 10 ∷ releases 6 1 ∷ looks nobody 5 ∷ []

others-IsApart : All (IsApart 1 0) others
others-IsApart = (refl, (refl, (λ p. omega (arith, p), (refl, tt))))

claim_run-exclusive_example :
    (claim_run nobody
      (call_all others (claim_run nobody start 5 (some 7) (some 1)).1)
      5
      none
      (some 2)).0
    ≡ none
claim_run-exclusive_example =
    claim_run-exclusive nobody start 5 (some 7) 1 0 others nobody none (some 2) owned_claim
      others-IsApart refl
