-- ===== src/Tests/ReplyRuns.antt =====
-- A policy for two channels with a cooldown of three.
use discord_chat_bot.Prelude.{◌≡◌, refl, true, false, lookup, ℕ_discrete}
use discord_chat_bot.Dict.{set, remove, move_to_end, evict}
use discord_chat_bot.Replies.{
  new_policy, set_default, touch, available, eligible, started_pair, sent_single,
}
use discord_chat_bot.Replies.Cooldown.{singles}

program : Unit {0}
unfolding set remove move_to_end evict set_default touch available eligible started_pair sent_single
    lookup ℕ_discrete
program = tt

cooling_test : (available (singles 2 (started_pair (new_policy 2) 3 9) 9) 9).0 ≡ false
unfolding program
cooling_test = refl

-- two other channels push it out, and it starts afresh
evicted_test :
    (eligible (sent_single (sent_single (started_pair (new_policy 2) 3 9) 4) 5) 9 true).0 ≡ true
unfolding program
evicted_test = refl
