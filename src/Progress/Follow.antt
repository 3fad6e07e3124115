-- ===== src/Progress/Follow.antt =====
-- What the hooks of a run keep true of its transcript.
use discord_chat_bot.Prelude.{
  ℕ, inl, inr, Bool, true, false, Option, none, List, [], ◌∷◌, All, Bool-cases,
}
use discord_chat_bot.Dict.{Dict}
use discord_chat_bot.Text.{Text, codes, is_empty}
use discord_chat_bot.Progress.{Transcript, new_transcript, add_note, set_thinking, strip_lines}
use discord_chat_bot.Progress.Hooks.{
  Hooks, Delivered, Event, new_hooks, flush, maybe_flush, note, start, finalize, started,
  on_tool_start, exec_result, add_result, is_refusal, on_tool_end, handle, handle_all, exec_command,
  write_stdin, other_tool, exec_ended, write_ended, other_ended, last_words, is_poll, shown,
  not_found, failed, starts, begins_llm, ends_llm, ends, tool_starts, tool_ends, lands, ToolStart,
  ToolEnd,
}
use discord_chat_bot.Progress.Held.{
  IsIdle, IsHonest, quiet, add_note-IsHonest, add_command-IsHonest, add_input-IsHonest,
  add_output-IsHonest, mark_held-IsHonest,
}

-- the hooks keep what each change of the transcript keeps
unfoldable pub Shows : Hooks → Type 0
Shows h = IsHonest h.transcript

flush-Shows : (d : Delivered) (now : ℕ) (h : Hooks) → Shows h → Shows (flush d now h)
unfolding flush Shows
flush-Shows shown now h k = k
flush-Shows not_found now h k = k
flush-Shows failed now h k = k

started-Shows : (call : ToolStart) (h : Hooks) → Shows h → Shows (started call h)
unfolding started note Shows
started-Shows (exec_command [] call_id) h k = k
started-Shows (exec_command (c ∷ cmd) call_id) h k = add_command-IsHonest (c ∷ cmd) h.transcript k
started-Shows (write_stdin chars) h k = elim (Bool-cases (is_empty (strip_lines chars))) [
  | inl e ↦ rw e k
  | inr e ↦ rw e (add_input-IsHonest chars h.transcript k)
]
started-Shows other_tool h k = k

add_result-IsHonest :
    (s : Text) (i : Option ℕ) (t : Transcript) → IsHonest t → IsHonest (add_result s i t)
unfolding add_result
add_result-IsHonest s i t h = add_output-IsHonest _ _ _ i t h

exec_result-Shows : (s : Text) (i : Option ℕ) (h : Hooks) → Shows h → Shows (exec_result s i h)
unfolding exec_result note Shows
exec_result-Shows s i h k = elim (Bool-cases (is_refusal s)) [
  | inl e ↦ rw e (mark_held-IsHonest i h.transcript k)
  | inr e ↦ rw e (add_result-IsHonest s i h.transcript k)
]

ended :
    (text : Text) (h : Hooks)
    → Shows h
    → Shows (record h { finalized = true; transcript = last_words text h })
unfolding Shows last_words IsHonest
ended text h k = elim (Bool-cases (is_empty text)) [
  | inl e ↦ rw e k
  | inr e ↦ rw e (add_note-IsHonest text _ (quiet h.transcript k))
]

finalize-Shows : (text : Text) (h : Hooks) → Shows h → Shows (finalize text h).1
unfolding finalize Shows last_words
finalize-Shows text h k = elim (Bool-cases h.finalized) [
  | inl e ↦ rw e k
  | inr e ↦ rw e (ended text h k)
]

untracked : (d : Dict Text ℕ) (h : Hooks) → Shows h → Shows (record h { call_blocks = d })
unfolding Shows
untracked d h k = k

resulted : (s : Text) (h : Hooks) → Shows h → Shows (note (add_result s none) h)
unfolding Shows note
resulted s h k = add_result-IsHonest s none h.transcript k

on_tool_end-Shows :
    (now : ℕ) (call : ToolEnd) (h : Hooks) → Shows h → Shows (on_tool_end now call h).1
unfolding on_tool_end maybe_flush
on_tool_end-Shows now (exec_ended call_id result) h k =
    exec_result-Shows result _ _ (untracked _ h k)
on_tool_end-Shows now (write_ended result) h k = elim (Bool-cases (is_poll result)) [
  | inl e ↦ rw e k
  | inr e ↦ rw e (resulted result h k)
]
on_tool_end-Shows now other_ended h k = k

noted :
    (h : Hooks)
    → Shows h
    → Shows (record h { transcript = add_note (codes "starting container…") h.transcript })
unfolding Shows
noted h k = add_note-IsHonest _ h.transcript k

thought : (b : Bool) (h : Hooks) → Shows h → Shows (note (set_thinking b) h)
unfolding Shows IsHonest note
thought b h k = k

handle-Shows : (e : Event) (now : ℕ) (h : Hooks) → Shows h → Shows (handle e now h).1
unfolding handle note start on_tool_start maybe_flush
handle-Shows starts now h k = noted h k
handle-Shows begins_llm now h k = thought true h k
handle-Shows ends_llm now h k = thought false h k
handle-Shows (ends text) now h k = finalize-Shows text h k
handle-Shows (tool_starts call) now h k = started-Shows call h k
handle-Shows (tool_ends call) now h k = on_tool_end-Shows now call h k
handle-Shows (lands d) now h k = flush-Shows d now h k

handle_all-Shows : (es : List (Event × ℕ)) (h : Hooks) → Shows h → Shows (handle_all es h)
unfolding handle_all
handle_all-Shows [] h k = k
handle_all-Shows ((e, now) ∷ es) h k =
    handle_all-Shows es (handle e now h).1 (handle-Shows e now h k)

fresh :
    (task title : Text) (files : List Text) (footer : Option Text) (interval : ℕ)
    → Shows (new_hooks (new_transcript task title files footer) interval)
unfolding Shows IsHonest new_transcript
fresh task title files footer interval = tt

-- From the start of a run on, a command that the message shows as not run has no output and no
-- exit code.
pub held-IsIdle :
    (task title : Text) (files : List Text) (footer : Option Text) (interval : ℕ)
    (es : List (Event × ℕ))
    → All IsIdle
        (handle_all es
          (new_hooks (new_transcript task title files footer) interval)).transcript.blocks
unfolding Shows IsHonest
held-IsIdle task title files footer interval es =
    handle_all-Shows es _ (fresh task title files footer interval)
