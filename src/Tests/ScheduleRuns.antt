-- ===== src/Tests/ScheduleRuns.antt =====
-- Schedules in a zone that is UTC.
use discord_chat_bot.Prelude.{◌+◌, ◌*◌, ◌/◌, ◌%◌, ◌≤◌, ◌<◌, ◌≡◌, refl, none, some, [], ◌∷◌}
use discord_chat_bot.Schedule.{
  second, hour, Zone, aware, hours, days, interval, weekly, ok, error, too_close, weekday_of,
  local_occurrence, run_on, search_days, next_day, next_once, next_on_grid, next_run,
  following_after, following_run, grace, anchor_timing, check_gap, validate_repeating,
  validate_schedule, closest, followup_conflict,
}
use discord_chat_bot.Schedule.Next.{next_run-weekly, following_run-later}

program : Unit {0}
unfolding local_occurrence run_on search_days next_day next_once next_on_grid next_run
    following_after following_run anchor_timing check_gap validate_repeating validate_schedule
    closest followup_conflict
program = tt

abbrev plain : Zone
plain = record {
  utc = λ w. w.day * (24 * hour) + w.time;
  wall = λ t. record { day = t / (24 * hour); time = t % (24 * hour) };
}

-- the fifth day was a Monday: 1970-01-05, at half past nine
weekly_run : next_run plain (weekly 0 9 30) 0 ≡ ok (some (4 * 24 * hour + 19 * hour / 2))
unfolding program
weekly_run = refl

close_test : validate_schedule plain (interval 3 hours none) 4 0 ≡ error too_close
unfolding program
close_test = refl

-- a daily interval that was asked for at 1 and started late keeps its slot
daily_run :
    following_run plain
      (interval 1 days (some (aware 0)))
      (24 * hour)
      (24 * hour + second)
      (25 * hour)
      24
    ≡ ok (some (48 * hour))
unfolding program
daily_run = refl

conflict_test :
    followup_conflict 20000000000 (1000000000 ∷ 25000000000 ∷ 14000000000 ∷ []) 4 ≡ some 25000000000
unfolding program
conflict_test = refl

next_run-weekly_example :
    (weekday_of (plain.wall (4 * 24 * hour + 19 * hour / 2)).day ≡ 0)
    × ((plain.wall (4 * 24 * hour + 19 * hour / 2)).time ≡ (9 * 60 + 30) * 60 * second)
next_run-weekly_example = next_run-weekly plain 0 9 30 0 (4 * 24 * hour + 19 * hour / 2) weekly_run

following_run-later_example :
    (24 * hour < 48 * hour)
    × (25 * hour < 48 * hour)
    × (24 * hour + second + 24 * hour ≤ 48 * hour + grace)
following_run-later_example =
    following_run-later plain (interval 1 days (some (aware 0))) (24 * hour) (24 * hour + second)
      (25 * hour) 24 (48 * hour) daily_run
