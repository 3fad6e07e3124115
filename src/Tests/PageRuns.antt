-- ===== src/Tests/PageRuns.antt =====
-- A text in parts of at most eight characters.
use discord_chat_bot.Prelude.{◌≡◌, refl, true, [], ◌∷◌, arith}
use discord_chat_bot.Text.{codes, is_space, lstrip, rstrip, strip}
use discord_chat_bot.Pages.{
  rfind_from, rfind, cut_of, end_of, piece_length, split_loop, split_parts, contains, needs_browser,
}
use discord_chat_bot.Pages.Parts.{concat, concat-split_parts}

program : Unit {0}
unfolding rfind_from rfind cut_of end_of piece_length split_loop split_parts contains needs_browser
    is_space lstrip rstrip strip
program = tt

-- a line break is better than a later space; a word that is too long is cut
split_test :
    split_parts (codes "one tw\no three abcdefghijk") 8
    ≡ codes "one tw\n" ∷ codes "o three " ∷ codes "abcdefgh" ∷ codes "ijk" ∷ []
unfolding program
split_test = refl

thin_test : needs_browser (λ s. s) (codes " please enable javascript ") 10 ≡ true
unfolding program
thin_test = refl

concat-split_parts_example : concat (split_parts (codes "one two three") 8) ≡ codes "one two three"
concat-split_parts_example = concat-split_parts 8 (omega arith) (codes "one two three")
