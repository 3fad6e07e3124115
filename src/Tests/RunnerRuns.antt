-- ===== src/Tests/RunnerRuns.antt =====
-- A reminder that runs, and a second job for it.
use discord_chat_bot.Prelude.{
  ℕ, ◌+◌, ◌≡◌, ◌≢◌, refl, true, false, Option, none, some, List, [], ◌∷◌, All, any, filter,
  if◌then◌else◌, ℕ_discrete, arith, ap,
}
use discord_chat_bot.Text.{Text, codes, Text-discrete}
use discord_chat_bot.Text.Number.{show, digits}
use discord_chat_bot.Claims.{
  Row, Claim, busy_key, claim_key, Op, claims, claim, del_owned, release, step, steps,
}
use discord_chat_bot.Claims.Held.{IsHeld}
use discord_chat_bot.Claims.Runs.{IsHarmless, IsRun}
use discord_chat_bot.Entries.{Entry}
use discord_chat_bot.Records.Quota.{get_row}
use discord_chat_bot.Runner.{
  found, absent, World, Effect, ran, posted, suspended, recorded, notified, access, current_rows,
  started_key, send_all, fail_rows, fail, complete_rows, complete, deliver, mark_all, release_all,
  read_all, run_rows, work, execute,
}
use discord_chat_bot.Runner.Quiet.{is_ran}
use discord_chat_bot.Runner.Once.{execute_once}
use discord_chat_bot.Runner.Outcomes.{results, result_of, execute-results}
use discord_chat_bot.Runner.Expected.{expected}
use discord_chat_bot.Runner.Released.{IsFree, execute-IsFree}
use discord_chat_bot.Tests.KeyValues.{Store, entries}
use discord_chat_bot.Tests.RecordRuns.{reminder, kept}
use discord_chat_bot.Tests.Redis.{database}

program : Unit {0}
unfolding Text-discrete ℕ_discrete show digits busy_key claim_key claim del_owned release step steps
    IsHeld IsHarmless IsRun get_row access current_rows started_key send_all fail_rows fail
    complete_rows complete deliver mark_all release_all read_all run_rows work execute expected
program = tt

abbrev first : Text → ℕ
first [] = 0
first (c ∷ s) = c

abbrev nothing : Store
nothing k = none

abbrev hello : Text
hello = codes "hello"

abbrev good : World
good = record {
  channel = found;
  in_guild = true;
  member = found;
  actor = record { view_channel = true; send_messages = true };
  bot = none;
  answer = some (hello ∷ []);
  takes = λ m. true;
  updates = λ row. true;
  stores = λ row outcome. true;
  reads = λ row. true;
  releases = λ c. true;
}

abbrev row : Row
row = record { kind = codes "schedule"; guild_id = 5; ident = codes "ab" }

abbrev mine : Claim
mine = record { key = claim_key row (codes "50"); lock = busy_key row; token = codes "x" }

abbrev records : Text → Option Entry
records = database.entry kept

-- a run, of which the records and the claims are as they were
abbrev runs : World → ℕ → Store → List Effect × Store
runs w now s = execute entries 5 w records now (now + 10) (reminder ∷ []) (mine ∷ []) s

run_test :
    (runs good 0 nothing).0
    ≡ ran (reminder ∷ []) ∷ posted hello ∷ recorded reminder (codes "completed") ∷ []
unfolding program
run_test = refl

unsent_test :
    (runs (record good { takes = λ m. false }) 0 nothing).0
    ≡ ran (reminder ∷ []) ∷ recorded reminder (codes "uncertain_delivery") ∷ []
unfolding program
unsent_test = refl

lost_test :
    (runs (record good { member = absent }) 0 nothing).0
    ≡ suspended reminder ∷ recorded reminder (codes "suspended") ∷ []
unfolding program
lost_test = refl

silent_test :
    (runs (record good { answer = none }) 0 nothing).0
    ≡ ran (reminder ∷ []) ∷ recorded reminder (codes "failed") ∷ notified ∷ []
unfolding program
silent_test = refl

abbrev meanwhile : List (ℕ × Op)
meanwhile = (20, claims row (codes "51") (codes "y") 900) ∷ []

meanwhile-IsRun : IsRun entries (started_key 5 reminder) (codes "1") 10 604800 meanwhile
unfolding program
meanwhile-IsRun = (omega arith, omega arith, tt, tt)

other_token : All (λ (c : Claim). c.token ≢ codes "1") (mine ∷ [])
other_token = (λ p. omega (arith, ap first p), tt)

ran_once : any is_ran (runs good 0 nothing).0 ≡ true
unfolding program
ran_once = refl

execute_once_example :
    any is_ran
      (execute entries 5 good records 30 40
        (reminder ∷ [])
        []
        (steps entries meanwhile (runs good 0 nothing).1)).0
    ≡ false
execute_once_example =
    execute_once entries 5 good good records records 0 10 reminder reminder (mine ∷ []) [] nothing
      meanwhile 30 40 refl refl refl (omega arith) other_token ran_once meanwhile-IsRun
      (omega arith) (omega arith)

unmarked :
    (mark_all entries 5 0 (current_rows records (read_all good.reads (reminder ∷ [])).1) nothing).0
    ≡ true
unfolding program
unmarked = refl

execute-results_example :
    results (runs good 0 nothing).0
    ≡ result_of
        (if (read_all good.reads (reminder ∷ [])).0 then expected good else codes "failed")
        (current_rows records (read_all good.reads (reminder ∷ [])).1)
execute-results_example =
    execute-results good (λ row. refl) (λ row outcome. refl) entries 5 0 nothing records 10
      (reminder ∷ []) (mine ∷ []) unmarked

execute-IsFree_example :
    All (IsFree entries 10 (runs good 0 nothing).1) (filter good.releases (mine ∷ []))
execute-IsFree_example =
    execute-IsFree entries 5 good records 0 10 (reminder ∷ []) (mine ∷ []) nothing
