-- ===== src/Claims/Keys.antt =====
-- The names of the keys that claims use.
use discord_chat_bot.Prelude.{ℕ, ◌≡◌, ◌≢◌, ap, [], ◌∷◌, drop, arith}
use discord_chat_bot.Text.{Text}
use discord_chat_bot.Claims.{Row, claim_key, busy_key, message_key, cooldown_key}

-- the letter behind the keys' prefix and its colon
abbrev head_or : Text → ℕ
head_or [] = 0
head_or (c ∷ s) = c

abbrev letter : Text → ℕ
letter s = head_or (drop 19 s)

pub busy≢claim : (row other : Row) (occurrence : Text) → busy_key row ≢ claim_key other occurrence
unfolding busy_key claim_key
busy≢claim row other occurrence h = let e : ◌≡◌ {A = ℕ} 98 99 = ap letter h in omega (arith, e)

pub busy≢message : (row other : Row) (n : ℕ) → busy_key row ≢ message_key other n
unfolding busy_key message_key
busy≢message row other n h = let e : ◌≡◌ {A = ℕ} 98 114 = ap letter h in omega (arith, e)

pub busy≢cooldown : (row other : Row) → busy_key row ≢ cooldown_key other
unfolding busy_key cooldown_key
busy≢cooldown row other h = let e : ◌≡◌ {A = ℕ} 98 99 = ap letter h in omega (arith, e)
