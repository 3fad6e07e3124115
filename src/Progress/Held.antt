-- ===== src/Progress/Held.antt =====
-- The commands that a transcript shows as not run.
use discord_chat_bot.Prelude.{
  ℕ, zero, suc, ◌≡◌, inl, inr, Bool, true, false, not, ◌&&◌, Option, none, some, List, [], ◌∷◌,
  if◌then◌else◌, All, All-push, Bool-cases, arith, ℤ,
}
use discord_chat_bot.Text.{Text, is_empty}
use discord_chat_bot.Progress.{
  Block, Transcript, new_block, add_note, add_command, or_blank, current_block, change_at,
  change_block, target, put_input, add_input, put_output, add_output, hold, mark_held, set_thinking,
  clear_footer, is_set, strip_lines, one_line,
}

-- a command that is shown as not run has no output and no exit code
unfoldable pub IsIdle : Block → Type 0
IsIdle b = b.held ≡ true → (is_empty b.output ≡ true) × (is_set b.exit_code ≡ false)

unfoldable pub IsHonest : Transcript → Type 0
IsHonest t = All IsIdle t.blocks

pub quiet : (t : Transcript) → IsHonest t → IsHonest (clear_footer (set_thinking false t))
unfolding IsHonest
quiet t h = h

pub if-IsHonest :
    (b : Bool) (t u : Transcript) → IsHonest t → IsHonest u → IsHonest (if b then t else u)
if-IsHonest true t u h k = h
if-IsHonest false t u h k = k

new_block-IsIdle : (cmd : Text) → IsIdle (new_block cmd)
unfolding IsIdle
new_block-IsIdle cmd h = cc h

put_input-IsIdle : (chars : Text) (b : Block) → IsIdle b → IsIdle (put_input chars b)
unfolding IsIdle put_input
put_input-IsIdle chars b h = h

put_output-IsIdle :
    (out : Text) (exit_code : Option ℤ) (process_id : Option ℕ) (b : Block)
    → IsIdle (put_output out exit_code process_id b)
unfolding IsIdle put_output
put_output-IsIdle out exit_code process_id b h = cc h

hold-IsIdle : (b : Block) → IsIdle b → IsIdle (hold b)
unfolding IsIdle hold
hold-IsIdle b h = ground arith

change_at-All :
    (f : Block → Block)
    → ((b : Block) → IsIdle b → IsIdle (f b))
    → (i : ℕ) (bs : List Block) → All IsIdle bs
    → All IsIdle (change_at i f bs)
unfolding change_at
change_at-All f k i [] h = h
change_at-All f k zero (b ∷ bs) h = (k b h.0, h.1)
change_at-All f k (suc i) (b ∷ bs) h = (h.0, change_at-All f k i bs h.1)

or_blank-All : (bs : List Block) → All IsIdle bs → All IsIdle (or_blank bs)
or_blank-All [] h = (new_block-IsIdle [], tt)
or_blank-All (b ∷ bs) h = h

target-IsHonest : (i : Option ℕ) (t : Transcript) → IsHonest t → IsHonest (target i t).1
unfolding target current_block IsHonest
target-IsHonest none t h = or_blank-All t.blocks h
target-IsHonest (some i) t h = h

change-IsHonest :
    (f : Block → Block)
    → ((b : Block) → IsIdle b → IsIdle (f b))
    → (i : Option ℕ) (t : Transcript) → IsHonest t
    → IsHonest (change_block (target i t).0 f (target i t).1)
unfolding IsHonest
change-IsHonest f k i t h =
    change_at-All f k (target i t).0 (target i t).1.blocks (target-IsHonest i t h)

pub add_note-IsHonest : (s : Text) (t : Transcript) → IsHonest t → IsHonest (add_note s t)
unfolding add_note IsHonest
add_note-IsHonest s t h = elim (Bool-cases (is_empty (one_line s))) [
  | inl e ↦ rw e h
  | inr e ↦ rw e h
]

pub add_command-IsHonest : (s : Text) (t : Transcript) → IsHonest t → IsHonest (add_command s t).1
unfolding add_command IsHonest
add_command-IsHonest s t h = All-push IsIdle t.blocks _ h (new_block-IsIdle _)

pub add_input-IsHonest : (s : Text) (t : Transcript) → IsHonest t → IsHonest (add_input s t)
unfolding add_input target
add_input-IsHonest s t h =
    if-IsHonest (is_empty (strip_lines s)) t _ h
      (change-IsHonest (put_input (strip_lines s)) (put_input-IsIdle (strip_lines s)) none t h)

pub add_output-IsHonest :
    (s : Text) (x : Option ℤ) (p : Option ℕ) (i : Option ℕ) (t : Transcript)
    → IsHonest t
    → IsHonest (add_output s x p i t)
unfolding add_output
add_output-IsHonest s x p i t h =
    if-IsHonest (is_empty (strip_lines s) && (not (is_set x) && not (is_set p))) t _ h (
      change-IsHonest (put_output (strip_lines s) x p)
        (λ b _. put_output-IsIdle (strip_lines s) x p b) i t h)

pub mark_held-IsHonest : (i : Option ℕ) (t : Transcript) → IsHonest t → IsHonest (mark_held i t)
unfolding mark_held
mark_held-IsHonest i t h = change-IsHonest hold hold-IsIdle i t h
