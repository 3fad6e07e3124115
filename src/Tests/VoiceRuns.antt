-- ===== src/Tests/VoiceRuns.antt =====
-- A window of two utterances that grows by one.
use discord_chat_bot.Prelude.{ℕ, ◌+◌, ◌≤◌, ◌≡◌, refl, ℕ_discrete, [], ◌∷◌, arith}
use discord_chat_bot.Text.{codes, Text-discrete}
use discord_chat_bot.Voice.{
  VoiceMessage, utterance_message, new_history, is_user, users, from_user, add,
}
use discord_chat_bot.Voice.Window.{add_all, IsEnd, add_all-window}

program : Unit {0}
unfolding Text-discrete ℕ_discrete is_user users from_user add add_all
program = tt

abbrev hear : ℕ → VoiceMessage
hear c = utterance_message (codes "Ann") (c ∷ [])

abbrev reply : VoiceMessage
reply = record { role = codes "assistant"; content = codes "yes" }

rebase_test :
    (add_all (new_history 2 1) (hear 1 ∷ reply ∷ hear 2 ∷ hear 3 ∷ reply ∷ hear 4 ∷ [])).items
    ≡ hear 3 ∷ reply ∷ hear 4 ∷ []
unfolding program
rebase_test = refl

add_all-window_example :
    IsEnd
      (add_all (new_history 2 1) (hear 1 ∷ reply ∷ hear 2 ∷ [])).items
      (hear 1 ∷ reply ∷ hear 2 ∷ [])
    × (users (add_all (new_history 2 1) (hear 1 ∷ reply ∷ hear 2 ∷ [])).items ≤ 2 + 1)
add_all-window_example = add_all-window 2 1 (hear 1 ∷ reply ∷ hear 2 ∷ []) (omega arith)
