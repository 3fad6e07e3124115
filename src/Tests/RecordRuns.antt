-- ===== src/Tests/RecordRuns.antt =====
-- A one-off schedule that is paused, and one that has run.
use discord_chat_bot.Prelude.{◌≡◌, refl, true, Option, none, some, List, [], ◌∷◌, ite, ℕ_discrete}
use discord_chat_bot.Text.{
  Text, codes, is_space, lstrip, rstrip, strip, split, split_from, Text-discrete,
}
use discord_chat_bot.Schedule.{Zone, once, aware, anchor_timing}
use discord_chat_bot.Entries.{
  schedule, enabled, paused, Entry, Changes, Command, set_record, drop_due, set_terminal,
  set_last_followup, run_all, wrote, completed,
}
use discord_chat_bot.Records.{
  week, index_part, due_part, writes, stamped, changed, only_deletes, is_unsupported, can_match,
  refusal_before, refusal_after, checked, check_changed, update,
}
use discord_chat_bot.Records.Ends.{noted, advances, finish_once, finish_schedule, finish}
use discord_chat_bot.Records.Due.{due_of, IsScheduled}
use discord_chat_bot.Records.Finishes.{finish-IsScheduled}
use discord_chat_bot.Tests.Redis.{Keys, put, database}

program : Unit {0}
unfolding is_space lstrip rstrip strip split split_from Text-discrete ℕ_discrete anchor_timing
    run_all index_part due_part writes stamped changed only_deletes is_unsupported can_match
    refusal_before refusal_after checked check_changed update noted advances finish_once
    finish_schedule finish due_of IsScheduled
program = tt

abbrev pub zone : Text → Zone
zone name = record { utc = λ w. w.time; wall = λ t. record { day = 0; time = t } }

abbrev pub known : Text → Option Text
known name = some name

abbrev pub reminder : Entry
reminder = record {
  ident = codes "ab";
  kind = schedule;
  channel_id = 5;
  creator_id = 7;
  editor_id = 7;
  action = codes "remind me";
  status = enabled;
  revision = 1;
  created_at = 0;
  updated_at = 0;
  last_result = none;
  timezone = codes "UTC";
  timing = once (aware 50);
  next_run = 50;
  followup = true;
  context = [];
  pattern = [];
  match_mode = [];
}

abbrev pub pausing : Changes
pausing = record {
  action = none;
  status = some paused;
  timing = none;
  timezone = none;
  pattern = none;
  match_mode = none;
}

abbrev pub resting : Entry
resting = record reminder { status = paused; revision = 2; editor_id = 8; updated_at = 20 }

abbrev pub kept : Keys
kept = (
  put (codes "ab") (some reminder) (λ j. none),
  put (codes "ab") (some 50) (λ j. none),
  codes "ab" ∷ [],
  [],
)

pub kept-IsScheduled : IsScheduled database kept
unfolding program
kept-IsScheduled j =
    elim (Text-discrete j (codes "ab"))
      as (λ d. ite d (some 50) none ≡ due_of (ite d (some reminder) none)) [
        | yes p ↦ refl
        | no n ↦ refl
      ]

pub reminder_found : database.entry kept reminder.ident ≡ some reminder
unfolding program
reminder_found = refl

pub paused_writes :
    update zone known 4 (some reminder) 8 1 pausing 20
    ≡ wrote resting (set_record resting none ∷ drop_due (codes "ab") ∷ [])
unfolding program
paused_writes = refl

abbrev over : Entry
over = record reminder { status = completed; last_result = some (codes "completed", [], 60) }

abbrev ending : List Command
ending =
    set_record over (some week)
    ∷ drop_due (codes "ab")
    ∷ set_terminal (codes "ab") 604800000060
    ∷ set_last_followup 7 50
    ∷ []

run_writes :
    finish zone known 4 (some reminder) reminder (codes "completed") [] none 60
    ≡ some (wrote over ending)
unfolding program
run_writes = refl

finish-IsScheduled_example : IsScheduled database (run_all database ending kept)
finish-IsScheduled_example =
    finish-IsScheduled database reminder reminder kept zone known 4 (codes "completed") [] none 60
      over ending kept-IsScheduled reminder_found refl refl run_writes
