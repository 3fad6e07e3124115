-- ===== src/Progress/Output.antt =====
-- core/classes/sandbox_progress.py: what a tool's result says. Digits are ASCII.
use discord_chat_bot.Prelude.{
  ℕ, zero, suc, ◌+◌, ◌-◌, ◌*◌, Bool, true, false, ◌&&◌, Option, none, some, List, [], ◌∷◌, ◌++◌,
  leb, ◌==◌, if◌then◌else◌, any, ite, ℤ, pos, negsuc,
}
use discord_chat_bot.Text.{Text, codes, strip, join, Text-discrete}
use discord_chat_bot.Progress.{strip_lines}

-- what stands behind the literal that the text starts with
unfoldable pub behind : Text → Text → Option Text
behind [] s = some s
behind (c ∷ p) [] = none
behind (c ∷ p) (d ∷ s) = let rest = behind p s in if c == d then rest else none

abbrev pub is_digit : ℕ → Bool
is_digit c = leb 48 c && leb c 57

unfoldable pub more_digits : ℕ → Text → ℕ
more_digits n [] = n
more_digits n (c ∷ s) =
    let more = more_digits (n * 10 + (c - 48)) s in if is_digit c then more else n

-- `(\d+)` where the text starts
unfoldable pub number_at : Text → Option ℕ
number_at [] = none
number_at (c ∷ s) = if is_digit c then some (more_digits (c - 48) s) else none

abbrev pub negated : ℕ → ℤ
negated zero = pos 0
negated (suc n) = negsuc n

abbrev pub map_option {ℓ} : {A B : Type ℓ} → (A → B) → Option A → Option B
map_option f none = none
map_option f (some a) = some (f a)

-- `(-?\d+)`
unfoldable pub integer_at : Text → Option ℤ
integer_at [] = none
integer_at (c ∷ s) =
    let signed = map_option negated (number_at s) in
    let plain = map_option pos (number_at (c ∷ s)) in if c == 45 then signed else plain

abbrev pub or_next {ℓ} : {A : Type ℓ} → Option A → Option A → Option A
or_next none b = b
or_next (some a) b = some a

abbrev pub bind_option {κ ℓ} : {A : Type κ} {B : Type ℓ} → Option A → (A → Option B) → Option B
bind_option none f = none
bind_option (some a) f = f a

-- `re.search` for a literal with a value behind it: the first place where both stand
unfoldable pub search {ℓ} : {A : Type ℓ} → Text → (Text → Option A) → Text → Option A
search p value [] = bind_option (behind p []) value
search p value (c ∷ s) =
    let later = search p value s in or_next (bind_option (behind p (c ∷ s)) value) later

unfoldable pub lines_from : Text → Text → List Text
lines_from line [] = line ∷ []
lines_from line (c ∷ s) =
    let next = line ∷ lines_from [] s in
    let more = lines_from (line ++ c ∷ []) s in if c == 10 then next else more

-- `text.split("\n")`
unfoldable pub lines : Text → List Text
lines s = lines_from [] s

-- the lines behind the first that is the header
unfoldable pub under_header : List Text → Option (List Text)
under_header [] = none
under_header (l ∷ ls) = ite (Text-discrete l (codes "Output:")) (some ls) (under_header ls)

abbrev pub text_under : Text → Option (List Text) → Text
text_under text none = text
text_under text (some ls) = join (10 ∷ []) ls

pub record ExecResult : Type 0 where
  pub output : Text
  pub exit_code : Option ℤ
  pub process_id : Option ℕ

unfoldable pub parse_exec_result : Text → ExecResult
parse_exec_result text = record {
  output = strip_lines (text_under text (under_header (lines text)));
  exit_code = search (codes "Process exited with code ") integer_at text;
  process_id = search (codes "Process running with session ID ") number_at text;
}

-- a guild's setting as it is stored: none stands for None and False
unfoldable pub sandbox_progress_updates_enabled : (Text → Text) → Option Text → Bool
sandbox_progress_updates_enabled lower none = false
sandbox_progress_updates_enabled lower (some raw) =
    any (λ w. ite (Text-discrete w (lower (strip raw))) true false)
      (codes "1" ∷ codes "true" ∷ codes "yes" ∷ codes "on" ∷ [])
