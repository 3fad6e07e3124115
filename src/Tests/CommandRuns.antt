-- ===== src/Tests/CommandRuns.antt =====
-- Spoken commands.
use discord_chat_bot.Prelude.{◌≡◌, refl, ℕ_discrete, none, some, [], ◌∷◌}
use discord_chat_bot.Text.{codes, join, Text-discrete}
use discord_chat_bot.Voice.Commands.{leave, stop, is_in, parse_command}

program : Unit {0}
unfolding ℕ_discrete Text-discrete join is_in parse_command
program = tt

leave_test :
    parse_command (codes "please" ∷ codes "leave" ∷ codes "the" ∷ codes "call" ∷ []) ≡ some leave
unfolding program
leave_test = refl

stop_test : parse_command (codes "shut" ∷ codes "up" ∷ codes "now" ∷ []) ≡ some stop
unfolding program
stop_test = refl

request_test : parse_command (codes "stop" ∷ codes "the" ∷ codes "music" ∷ []) ≡ none
unfolding program
request_test = refl
