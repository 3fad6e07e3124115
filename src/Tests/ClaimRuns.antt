-- ===== src/Tests/ClaimRuns.antt =====
-- Two workers that claim a schedule, over a store that is a function from keys.
use discord_chat_bot.Prelude.{
  ℕ, ◌≡◌, ◌≢◌, inr, refl, sym, true, none, some, List, [], ◌∷◌, ℕ_discrete, arith,
}
use discord_chat_bot.Text.{Text, codes, Text-discrete}
use discord_chat_bot.Text.Number.{show, digits}
use discord_chat_bot.Claims.{
  Row, claim_key, busy_key, message_key, cooldown_key, behind, replace_all, Claim, claim, del_owned,
  release, del_all_owned, cancelled_keys, cancel_claim, lengthen, renew, claim_rule, Op, claims,
  releases, step, steps,
}
use discord_chat_bot.Tests.KeyValues.{alive, Store, entries}
use discord_chat_bot.Claims.Keys.{busy≢claim}
use discord_chat_bot.Claims.Held.{IsHeld}
use discord_chat_bot.Claims.Runs.{IsHarmless, IsRun}
use discord_chat_bot.Claims.Once.{claim_exclusive, claim_once, release-claim}

program : Unit {0}
unfolding Text-discrete ℕ_discrete show digits claim_key busy_key message_key cooldown_key behind
    replace_all claim del_owned release del_all_owned cancelled_keys cancel_claim lengthen renew
    claim_rule step steps IsHarmless IsRun IsHeld
program = tt

abbrev nothing : Store
nothing k = none

abbrev news : Row
news = record { kind = codes "schedule"; guild_id = 5; ident = codes "ab" }

abbrev weather : Row
weather = record { kind = codes "schedule"; guild_id = 5; ident = codes "cd" }

abbrev first : Claim
first = record { key = claim_key news (codes "7"); lock = busy_key news; token = codes "x" }

abbrev claimed : Store
claimed = (claim entries 0 news (codes "7") (codes "x") 900 nothing).1

claimed_first : (claim entries 0 news (codes "7") (codes "x") 900 nothing).0 ≡ some first
unfolding program
claimed_first = refl

busy_is_other : first.key ≢ first.lock
busy_is_other e = busy≢claim news news (codes "7") (sym e)

cancel_test : cancelled_keys first true ≡ first.key ∷ first.lock ∷ cooldown_key news ∷ []
unfolding program
cancel_test = refl

-- another worker claims another schedule meanwhile
abbrev meanwhile : List (ℕ × Op)
meanwhile = (10, claims weather (codes "7") (codes "y") 900) ∷ (20, releases none) ∷ []

meanwhile-IsRun : (k : Text) → IsRun entries k (codes "x") 0 900 meanwhile
unfolding program
meanwhile-IsRun k = (omega arith, omega arith, tt, (omega arith, omega arith, tt, tt))

claim_exclusive_example :
    (claim entries 30 news (codes "8") (codes "z") 900 (steps entries meanwhile claimed)).0 ≡ none
claim_exclusive_example =
    claim_exclusive entries 0 news (codes "7") (codes "x") 900 nothing first meanwhile 30
      (codes "8") (codes "z") 900 claimed_first (meanwhile-IsRun (busy_key news)) (omega arith)
      (omega arith)

-- the worker is done at 40
abbrev done : List (ℕ × Op)
done = (40, releases (some first)) ∷ []

done-IsRun : IsRun entries first.key (codes "x") 0 900 done
unfolding program
done-IsRun = (omega arith, omega arith, inr busy_is_other, tt)

claim_once_example :
    (claim entries 50 news (codes "7") (codes "z") 900 (steps entries done claimed)).0 ≡ none
claim_once_example =
    claim_once entries 0 news (codes "7") (codes "x") 900 nothing first done 50 (codes "z") 900
      claimed_first done-IsRun (omega arith) (omega arith)

again_test :
    ((claim entries 50 news (codes "8") (codes "z") 900 (steps entries done claimed)).0
      ≡ some (record { key = claim_key news (codes "8"); lock = busy_key news; token = codes "z" }))
    × ((claim entries 900 news (codes "7") (codes "z") 900 claimed).0
        ≡ some (record first { token = codes "z" }))
unfolding program
again_test = (refl, refl)

release-claim_example :
    alive 30 (release entries 30 (some first) (steps entries meanwhile claimed) (busy_key news))
    ≡ none
release-claim_example =
    release-claim entries 0 news (codes "7") (codes "x") 900 nothing first meanwhile 30
      claimed_first (meanwhile-IsRun (busy_key news)) (omega arith) (omega arith)

renewed : (renew entries 300 first 900 claimed).0 ≡ true
unfolding program
renewed = refl
