-- ===== src/Ledger/Intake/Author.antt =====
-- The author's name, as it goes into a model prompt.
use discord_chat_bot.Prelude.{
  ℕ, ◌≤◌, ◌<◌, ◌≡◌, refl, false, [], ◌∷◌, length, map, All, length-take, arith,
}
use discord_chat_bot.Text.{Text, split, join, or_else}
use discord_chat_bot.Text.Laws.{All-split, All-join, All-take}
use discord_chat_bot.Ledger.{max_author_chars}
use discord_chat_bot.Ledger.Intake.{is_framing, blank_framing, someone, clean_author}

abbrev pub IsPlain : ℕ → Type 0
IsPlain c = is_framing c ≡ false

blank_framing-IsPlain : (c : ℕ) → IsPlain (blank_framing c)
unfolding is_framing blank_framing
blank_framing-IsPlain c = ground arith

map-IsPlain : (s : Text) → All IsPlain (map blank_framing s)
map-IsPlain [] = tt
map-IsPlain (c ∷ s) = (blank_framing-IsPlain c, map-IsPlain s)

someone-IsPlain : All IsPlain someone
unfolding is_framing
someone-IsPlain = (refl, (refl, (refl, (refl, (refl, (refl, (refl, tt)))))))

or_else-IsPlain : (a b : Text) → All IsPlain a → All IsPlain b → All IsPlain (or_else a b)
or_else-IsPlain [] b h k = k
or_else-IsPlain (c ∷ a) b h k = h

or_else_pos : (a : Text) → 0 < length (or_else a someone)
or_else_pos [] = omega arith
or_else_pos (c ∷ a) = omega arith

space-IsPlain : All IsPlain (32 ∷ [])
unfolding is_framing
space-IsPlain = (refl, tt)

-- Whatever name a user chose, the one shown to the model has between 1 and 40 characters, and
-- none of them is a bracket, a colon, a backquote or a line break.
pub clean_author-IsPlain :
    (name : Text)
    → All IsPlain (clean_author name)
      × (0 < length (clean_author name))
      × (length (clean_author name) ≤ max_author_chars)
unfolding clean_author
clean_author-IsPlain name =
    let blanked = map blank_framing (or_else name someone) in
    let joined = join (32 ∷ []) (split blanked) in
    let whole = or_else joined someone in
    (
      All-take IsPlain max_author_chars whole (
          or_else-IsPlain joined someone
            (All-join IsPlain (32 ∷ []) (split blanked) space-IsPlain
              (All-split IsPlain blanked (map-IsPlain (or_else name someone))))
            someone-IsPlain),
      omega (arith, length-take max_author_chars whole, or_else_pos joined),
      omega (arith, length-take max_author_chars whole),
    )
