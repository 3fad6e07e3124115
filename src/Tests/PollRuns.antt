-- ===== src/Tests/PollRuns.antt =====
-- A poll that puts a reminder, takes a lost name off, and stops at a full queue.
use discord_chat_bot.Prelude.{
  ℕ, ◌≡◌, refl, ap, true, false, none, some, List, [], ◌∷◌, All, ℕ_discrete, arith,
}
use discord_chat_bot.Text.{Text, codes, Text-discrete}
use discord_chat_bot.Text.Number.{show, digits}
use discord_chat_bot.Claims.{
  busy_key, claim_key, claim, cancel_claim, cancelled_keys, del_all_owned, del_owned, behind,
  replace_all,
}
use discord_chat_bot.Claims.Held.{IsHeld}
use discord_chat_bot.Records.Quota.{get_row}
use discord_chat_bot.Runner.{started_key}
use discord_chat_bot.Runner.Poll.{Job, Turn, unlisted, Turned, row_of, turn, poll}
use discord_chat_bot.Runner.Admits.{AreNew, poll-IsHeld}
use discord_chat_bot.Tests.KeyValues.{Store, entries}
use discord_chat_bot.Tests.RecordRuns.{zone, reminder}

program : Unit {0}
unfolding Text-discrete ℕ_discrete show digits busy_key claim_key claim cancel_claim cancelled_keys
    del_all_owned del_owned behind replace_all get_row started_key turn poll
program = tt

abbrev nothing : Store
nothing k = none

abbrev due : Turn
due = record {
  ident = codes "ab";
  time = 60;
  clock = 60_000_000;
  is_full = false;
  is_full_late = false;
  in_voice = false;
  stored = some reminder;
  token = codes "x";
}

abbrev lost : Turn
lost = record due { ident = codes "cd"; time = 61; stored = none; token = codes "y" }

abbrev late : Turn
late = record due { time = 62; is_full = true; token = codes "z" }

abbrev turns : List Turn
turns = due ∷ lost ∷ late ∷ due ∷ []

abbrev polled : List Turn → Turned Store
polled ts = poll entries 5 4 zone ts nothing

abbrev reminded : Job
reminded = record {
  row = reminder;
  claim = record {
    key = claim_key (row_of 5 reminder) (codes "50");
    lock = busy_key (row_of 5 reminder);
    token = codes "x";
  };
}

poll_test :
    ((polled turns).jobs ≡ reminded ∷ []) × ((polled turns).notes ≡ unlisted (codes "cd") ∷ [])
unfolding program
poll_test = (refl, refl)

full_test : (polled (record due { is_full_late = true } ∷ lost ∷ [])).jobs ≡ []
unfolding program
full_test = refl

abbrev first : Text → ℕ
first [] = 0
first (c ∷ s) = c

new_tokens : AreNew (due ∷ lost ∷ [])
new_tokens = ((λ p. omega (arith, ap first p), tt), (tt, tt))

poll-IsHeld_example :
    All
      (λ (j : Job).
        IsHeld entries (polled (due ∷ lost ∷ [])).keys j.claim.lock j.claim.token 61 900)
      (polled (due ∷ lost ∷ [])).jobs
poll-IsHeld_example =
    poll-IsHeld entries 5 4 zone 0 900 (due ∷ lost ∷ []) nothing (omega arith) (omega arith)
      new_tokens
