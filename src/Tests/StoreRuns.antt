-- ===== src/Tests/StoreRuns.antt =====
-- A second follow-up is refused, for the quota and for its time, and a schedule is made.
use discord_chat_bot.Prelude.{
  ℕ, ap, ◌≡◌, ◌≢◌, refl, true, false, none, some, List, [], ◌∷◌, All, ℕ_discrete, arith,
}
use discord_chat_bot.Text.{
  Text, codes, is_space, lstrip, rstrip, strip, split, split_from, Text-discrete,
}
use discord_chat_bot.Schedule.{
  once, aware, anchor_timing, check_gap, closest, followup_conflict, validate_schedule,
}
use discord_chat_bot.Entries.{
  Kind, schedule, rule, Entry, run_all, refused, wrote, quota_full, too_close,
}
use discord_chat_bot.Records.{can_match, is_enabled}
use discord_chat_bot.Records.Quota.{
  Settings, schedules, followups, rules, Request, get_row, rows_of, active_count, is_full,
  refusal_first, new_entry, others, creates, admit, draft, create,
}
use discord_chat_bot.Records.Limits.{count, IsWithin}
use discord_chat_bot.Records.Apart.{IsAdmitted}
use discord_chat_bot.Records.Creates.{create-IsAdmitted}
use discord_chat_bot.Records.Life.{created, Reach, here, next, AreTimely, IsSound, Reach-IsSound}
use discord_chat_bot.Tests.Redis.{Keys, database}
use discord_chat_bot.Tests.RecordRuns.{zone, known, kept, kept-IsScheduled}

program : Unit {0}
unfolding is_space lstrip rstrip strip split split_from Text-discrete ℕ_discrete anchor_timing
    check_gap closest followup_conflict validate_schedule run_all can_match get_row rows_of
    active_count is_full refusal_first new_entry others creates admit draft create
program = tt

abbrev settings : Settings
settings = record {
  enabled = true;
  timezone = codes "UTC";
  min_hours = 4;
  schedule_limit = 1;
  followup_limit = 1;
  rule_limit = 4;
}

abbrev asked : Request
asked = record {
  kind = some schedule;
  action = codes " say hello ";
  followup = false;
  timing = once (aware 90);
  timezone = [];
  context = [];
  pattern = [];
  match_mode = none;
}

abbrev rows : Keys → Kind → List Entry
rows s k = rows_of (database.entry s) (database.index s k)

abbrev greeting : Entry
greeting = record (new_entry schedule (codes "cd") 5 9 asked 30) {
  timezone = codes "UTC";
  next_run = 90;
}

full_test :
    create zone known settings
      (codes "cd")
      5
      7
      (record asked { followup = true })
      30
      (rows kept)
      (rows kept)
      none
    ≡ refused quota_full
unfolding program
full_test = refl

close_test :
    create zone known
      (record settings { followup_limit = 2 })
      (codes "cd")
      5
      7
      (record asked { followup = true })
      30
      (rows kept)
      (rows kept)
      none
    ≡ refused (too_close 50)
unfolding program
close_test = refl

greeting_writes :
    create zone known settings (codes "cd") 5 9 asked 30 (rows kept) (rows kept) none
    ≡ wrote greeting (creates greeting 30)
unfolding program
greeting_writes = refl

create-IsAdmitted_example :
    (is_enabled greeting.status ≡ true)
    × IsAdmitted settings greeting 30 (rows kept greeting.kind) none (creates greeting 30)
create-IsAdmitted_example =
    create-IsAdmitted zone known settings (codes "cd") 5 9 asked 30 (rows kept) (rows kept) none
      greeting (creates greeting 30) greeting_writes

kept-IsWithin : IsWithin database settings kept
unfolding program IsWithin count
kept-IsWithin schedules = omega arith
kept-IsWithin followups = omega arith
kept-IsWithin rules = omega arith

abbrev first : Text → ℕ
first [] = 0
first (c ∷ s) = c

new_name : (k : Kind) → All (λ j. j ≢ greeting.ident) (database.index kept k)
unfolding program
new_name schedule = (λ p. omega (arith, ap first p), tt)
new_name rule = tt

no_record : database.entry kept greeting.ident ≡ none
unfolding program
no_record = refl

kept-IsSound : IsSound database zone known settings kept
kept-IsSound = record { scheduled = kept-IsScheduled; within = kept-IsWithin }

-- a schedule is made
made : Reach database zone known settings kept (run_all database (creates greeting 30) kept)
made = next here (
    created (codes "cd") 5 9 asked 30 (rows kept) none greeting (creates greeting 30)
      greeting_writes no_record new_name)

Reach-IsSound_example :
    IsSound database zone known settings (run_all database (creates greeting 30) kept)
unfolding AreTimely made
Reach-IsSound_example = Reach-IsSound database zone known settings kept-IsSound made (tt, tt)
