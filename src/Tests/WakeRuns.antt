-- ===== src/Tests/WakeRuns.antt =====
-- What wakes a bot that is called "hey sparky".
use discord_chat_bot.Prelude.{◌≡◌, refl, ℕ_discrete, none, some, List, [], ◌∷◌}
use discord_chat_bot.Text.{Text, codes, Text-discrete}
use discord_chat_bot.Voice.Sound.{
  replace_two, collapse, is_ee, unify_end, key, row_rest, rows, first_row, edit_distance,
}
use discord_chat_bot.Voice.Sound.Distance.{cost, reversed, edit_distance-cost}
use discord_chat_bot.Voice.Wake.{
  joined_keys, ratio, is_greeting, is_glued, similar_name, similar, try_span, try_starts, wake_end,
}

program : Unit {0}
unfolding ℕ_discrete Text-discrete replace_two collapse is_ee unify_end key row_rest rows first_row
    edit_distance joined_keys ratio is_greeting is_glued similar_name similar try_span try_starts
    wake_end
program = tt

key_test : key (codes "sparckie") ≡ codes "sparky"
unfolding program
key_test = refl

vowel_test : edit_distance (codes "lulu") (codes "lala") ≡ 2
unfolding program
vowel_test = refl

abbrev utterance : List Text
utterance = codes "um" ∷ codes "hay" ∷ codes "sparki" ∷ codes "stop" ∷ []

wakes : wake_end utterance (codes "hey" ∷ codes "sparky" ∷ []) ≡ some 3
unfolding program
wakes = refl

sleeps : wake_end (codes "hey" ∷ codes "barky" ∷ []) (codes "hey" ∷ codes "sparky" ∷ []) ≡ none
unfolding program
sleeps = refl

edit_distance-cost_example :
    edit_distance (codes "lulu") (codes "lala")
    ≡ cost (reversed (codes "lulu")) (reversed (codes "lala"))
edit_distance-cost_example = edit_distance-cost (codes "lulu") (codes "lala")
