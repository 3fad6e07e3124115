-- ===== src/Tests/ProgressRuns.antt =====
-- A command that the gate refused, and another that ran.
use discord_chat_bot.Prelude.{
  ℕ, ◌+◌, ◌≤◌, ◌≡◌, refl, true, false, none, some, List, [], ◌∷◌, ◌++◌, length, max, map, All,
  lookup, ℕ_discrete, pos,
}
use discord_chat_bot.Dict.{set, remove}
use discord_chat_bot.Text.{Text, codes, is_space, split, split_from, join, Text-discrete}
use discord_chat_bot.Text.Number.{show, digits}
use discord_chat_bot.Progress.{
  one_line, new_transcript, lstrip_lines, rstrip_lines, strip_lines, tail, head, add_note,
  add_command, current_block, change_at, target, put_input, add_input, put_output, add_output, hold,
  mark_held,
}
use discord_chat_bot.Progress.Output.{
  behind, more_digits, number_at, integer_at, search, lines, lines_from, under_header,
  parse_exec_result,
}
use discord_chat_bot.Progress.Render.{
  FieldSpec, fail, max_fields, embed_char_budget, clip_body, render_body, state_color, status_line,
  field_name, shell_part, input_parts, output_room, output_part, value_parts, field_value,
  field_for_block, cost, is_over, newest_fields, reversed, rcut_space, rstrip_stops, cut_at_word,
  trim, sandbox_task_text, base_chars, render_embed,
}
use discord_chat_bot.Progress.Fit.{IsField, all_fields, costs}
use discord_chat_bot.Progress.Shown.{render_embed-fits}
use discord_chat_bot.Progress.Hooks.{
  Hooks, shown, lands, new_hooks, flush, is_due, maybe_flush, note, start, last_words, finalize,
  exec_command, started, on_tool_start, exec_ended, is_refusal, add_result, exec_result, is_poll,
  on_tool_end, Event, starts, tool_starts, tool_ends, handle, handle_all,
}
use discord_chat_bot.Progress.Spaced.{is_spaced, handle-is_spaced}
use discord_chat_bot.Progress.Held.{IsIdle}
use discord_chat_bot.Progress.Follow.{held-IsIdle}

program : Unit {0}
unfolding is_space split split_from join Text-discrete ℕ_discrete lookup show digits set remove
    one_line new_transcript lstrip_lines rstrip_lines strip_lines tail head add_note add_command
    current_block change_at target put_input add_input put_output add_output hold mark_held behind
    more_digits number_at integer_at search lines lines_from under_header parse_exec_result
    clip_body render_body state_color status_line field_name shell_part input_parts output_room
    output_part value_parts field_value field_for_block cost is_over newest_fields reversed
    rcut_space rstrip_stops cut_at_word trim sandbox_task_text base_chars render_embed flush is_due
    maybe_flush note start last_words finalize started on_tool_start is_refusal add_result
    exec_result is_poll on_tool_end handle handle_all
program = tt

abbrev ran : Text
ran = codes "Chunk ID: 1\nProcess exited with code 2\nOutput:\nno such file\n"

parse_test :
    parse_exec_result ran
    ≡ record { output = codes "no such file"; exit_code = some (pos 2); process_id = none }
unfolding program
parse_test = refl

abbrev task : Text
task = codes "draw  a cat"

-- two tool calls run at the same time, and the second one's edit begins before the first's ends
abbrev script : List (Event × ℕ)
script =
    (starts, 1)
    ∷ (lands shown, 1)
    ∷ (tool_starts (exec_command (codes "ls") (some (codes "a"))), 2)
    ∷ (tool_starts (exec_command (codes "cat x") (some (codes "b"))), 3)
    ∷ (tool_ends (exec_ended (some (codes "a")) (codes "Not run: wait")), 19990)
    ∷ (tool_ends (exec_ended (some (codes "b")) ran), 20000)
    ∷ (lands shown, 20005)
    ∷ (lands shown, 20010)
    ∷ []

abbrev run : Hooks
run = handle_all script (new_hooks (new_transcript task (codes "Sandbox") [] none) 15000)

held_test :
    (map (λ b. b.held) run.transcript.blocks ≡ true ∷ false ∷ [])
    × ((render_embed run.transcript).color ≡ fail)
    × (map (λ f. f.name) (render_embed run.transcript).fields ≡ codes "$ ls" ∷ codes "$ cat x" ∷ [])
    × (run.last_flush ≡ 20010)
unfolding program
held_test = (refl, refl, refl, refl)

held-IsIdle_example : All IsIdle run.transcript.blocks
held-IsIdle_example = held-IsIdle task (codes "Sandbox") [] none 15000 script

render_embed-fits_example :
    (length (render_embed run.transcript).fields ≤ max_fields)
    × All IsField (render_embed run.transcript).fields
    × (base_chars run.transcript + costs (render_embed run.transcript).fields
        ≤ max embed_char_budget (base_chars run.transcript))
    × ((older : List FieldSpec) × (all_fields run.transcript.blocks
          ≡ older ++ (render_embed run.transcript).fields))
render_embed-fits_example = render_embed-fits run.transcript

abbrev begun : Hooks
begun = new_hooks (new_transcript task (codes "Sandbox") [] none) 15000

overlap_test : (handle (tool_starts (exec_command (codes "ls") none)) 20000 begun).0 ≡ true
unfolding program
overlap_test = refl

handle-is_spaced_example : is_spaced 15000 0 script begun ≡ true
handle-is_spaced_example = handle-is_spaced script begun
