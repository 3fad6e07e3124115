-- ===== src/Text/Number.antt =====
-- Decimal numbers in text, as an f-string prints them.
use discord_chat_bot.Prelude.{ℕ, zero, suc, ◌+◌, ◌/◌, ◌%◌, [], ◌∷◌, ltb, if◌then◌else◌}
use discord_chat_bot.Text.{Text}

-- The digits of `n` in front of those that are already printed, on fuel.
unfoldable pub digits : ℕ → ℕ → Text → Text
digits zero n printed = printed
digits (suc fuel) n printed =
    let more = digits fuel (n / 10) ((48 + n % 10) ∷ printed) in
    if ltb n 10 then (48 + n) ∷ printed else more

-- `str(n)`; a number has at most as many digits as its value and one
unfoldable pub show : ℕ → Text
unfolding digits
show n = digits (suc n) n []

-- `{n:02d}`
unfoldable pub show_two : ℕ → Text
unfolding show
show_two n = if ltb n 10 then 48 ∷ show n else show n
