-- ===== src/Pages.antt =====
-- core/classes/web_policy.py: a long page in parts. `size` is WEB_FETCH_PART_CHARS, which
-- `settings` keeps positive.
pub mod Parts
use discord_chat_bot.Prelude.{
  ℕ, ◌+◌, ◌/◌, Bool, true, false, ◌&&◌, ◌||◌, Option, none, some, List, [], ◌∷◌, zero, suc, ltb,
  leb, ◌==◌, if◌then◌else◌, length, take, drop, any,
}
use discord_chat_bot.Text.{Text, codes, strip}

-- `window.rfind(c, low)` on the rest of the window that starts at the index `at`
unfoldable pub rfind_from : ℕ → ℕ → ℕ → Text → Option ℕ
rfind_from c low at [] = none
rfind_from c low at (x ∷ xs) =
    let later = rfind_from c low (at + 1) xs in
    elim later [ none ↦ if x == c && leb low at then some at else none | some i ↦ some i ]

unfoldable pub rfind : ℕ → ℕ → Text → Option ℕ
unfolding rfind_from
rfind c low window = rfind_from c low 0 window

abbrev pub or_option {ℓ} : {A : Type ℓ} → Option A → Option A → Option A
or_option none o = o
or_option (some a) o = some a

-- the last line break in the window's second half, else the last space
unfoldable pub cut_of : ℕ → Text → Option ℕ
unfolding rfind
cut_of size window = or_option (rfind 10 (size / 2) window) (rfind 32 (size / 2) window)

-- how much of a rest that is too long goes into the next part
unfoldable pub end_of : ℕ → Option ℕ → ℕ
end_of size none = size
end_of size (some zero) = size
end_of size (some (suc i)) = i + 2

unfoldable pub piece_length : ℕ → Text → ℕ
unfolding cut_of end_of
piece_length size rest =
    if leb (length rest) size then length rest else end_of size (cut_of size (take size rest))

-- `while start < len(text)`, on the rest of the text and fuel
unfoldable pub split_loop : ℕ → ℕ → Text → List Text
unfolding piece_length
split_loop zero size rest = []
split_loop (suc fuel) size [] = []
split_loop (suc fuel) size (x ∷ xs) =
    let n = piece_length size (x ∷ xs) in take n (x ∷ xs) ∷ split_loop fuel size (drop n (x ∷ xs))

-- each turn takes at least one character, so the text's length is fuel enough
unfoldable pub split_parts : Text → ℕ → List Text
unfolding split_loop
split_parts text size =
    let parts = split_loop (length text) size text in
    if leb (length text) size then text ∷ [] else parts

abbrev pub starts_with : Text → Text → Bool
starts_with [] s = true
starts_with (c ∷ cs) [] = false
starts_with (c ∷ cs) (x ∷ xs) = x == c && starts_with cs xs

-- `needle in s`
unfoldable pub contains : Text → Text → Bool
contains needle [] = starts_with needle []
contains needle (x ∷ xs) = starts_with needle (x ∷ xs) || contains needle xs

abbrev pub js_markers : List Text
js_markers =
    codes "enable javascript"
    ∷ codes "javascript is required"
    ∷ codes "javascript is disabled"
    ∷ codes "turn on javascript"
    ∷ codes "requires javascript"
    ∷ codes "javascript to run this app"
    ∷ codes "you need to enable javascript"
    ∷ []

-- `lower` is `str.lower`
module _ (lower : Text → Text) where
  unfoldable pub needs_browser : Text → ℕ → Bool
  unfolding contains
  needs_browser text min_chars =
      let stripped = strip text in
      ltb (length stripped) min_chars
      || (ltb (length stripped) 2000 && any (λ marker. contains marker (lower stripped)) js_markers)
