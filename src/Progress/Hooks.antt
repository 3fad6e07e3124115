-- ===== src/Progress/Hooks.antt =====
-- core/classes/sandbox_progress.py: SandboxProgressHooks, which follows a run's tool calls and keeps
-- one message up to date. The clock's readings and what Discord answers are arguments.
use discord_chat_bot.Prelude.{
  ℕ, ◌+◌, Bool, true, false, not, ◌&&◌, ◌||◌, Option, none, some, List, [], ◌∷◌, ltb, if◌then◌else◌,
  lookup,
}
use discord_chat_bot.Dict.{Dict, set, remove}
use discord_chat_bot.Text.{Text, codes, is_empty, Text-discrete}
use discord_chat_bot.Coordinator.{refusal_prefix}
use discord_chat_bot.Progress.{
  Transcript, clear_footer, add_note, add_command, add_input, add_output, mark_held, set_thinking,
  strip_lines, is_set,
}
use discord_chat_bot.Progress.Output.{behind, parse_exec_result}

-- milliseconds
abbrev pub backoff : ℕ
backoff = 25000

pub record Hooks : Type 0 where
  pub transcript : Transcript
  pub edit_interval : ℕ
  pub has_message : Bool
  pub dirty : Bool
  pub last_flush : ℕ
  pub backoff_until : ℕ
  pub finalized : Bool
  pub call_blocks : Dict Text ℕ

abbrev pub new_hooks : Transcript → ℕ → Hooks
new_hooks t edit_interval = record {
  transcript = t;
  edit_interval = edit_interval;
  has_message = false;
  dirty = false;
  last_flush = 0;
  backoff_until = 0;
  finalized = false;
  call_blocks = [];
}

-- What becomes of a message that is sent or edited.
pub data Delivered : Type 0 where
  shown not_found failed : Delivered

-- The part of `_flush` after its message was sent or edited, at the clock's reading of then. The
-- part before changes nothing.
unfoldable pub flush : Delivered → ℕ → Hooks → Hooks
flush shown later h = record h { has_message = true; last_flush = later; dirty = false }
flush not_found later h = record h { has_message = false }
flush failed later h = record h { backoff_until = later + backoff }

-- whether the message is brought up to date now
unfoldable pub is_due : ℕ → Bool → Hooks → Bool
is_due now force h =
    not h.finalized
    && (h.dirty
        && (force
            || (not (ltb now h.backoff_until) && not (ltb now (h.last_flush + h.edit_interval)))))

-- whether a message begins to be sent or edited, with the state then
unfoldable pub maybe_flush : ℕ → Bool → Hooks → Bool × Hooks
maybe_flush now force h = (is_due now force h, h)

unfoldable pub note : (Transcript → Transcript) → Hooks → Hooks
note f h = record h { transcript = f h.transcript; dirty = true }

unfoldable pub start : Hooks → Bool × Hooks
start h = (true, record h { transcript = add_note (codes "starting container…") h.transcript })

unfoldable pub last_words : Text → Hooks → Transcript
last_words text h =
    let ended = clear_footer (set_thinking false h.transcript) in
    if is_empty text then ended else add_note text ended

-- no text stands for no note
unfoldable pub finalize : Text → Hooks → Bool × Hooks
finalize text h =
    if h.finalized
    then (false, h)
    else (true, record h { finalized = true; transcript = last_words text h })

-- a tool call as it starts: its arguments, with the call's id
pub data ToolStart : Type 0 where
  exec_command : Text → Option Text → ToolStart
  write_stdin : Text → ToolStart
  other_tool : ToolStart

abbrev pub track : Option Text → ℕ → Dict Text ℕ → Dict Text ℕ
track none i d = d
track (some []) i d = d
track (some (c ∷ s)) i d = set Text-discrete (c ∷ s) i d

unfoldable pub started : ToolStart → Hooks → Hooks
started (exec_command [] call_id) h = h
started (exec_command (c ∷ cmd) call_id) h =
    let (i, t) = add_command (c ∷ cmd) h.transcript in
    record h { transcript = t; dirty = true; call_blocks = track call_id i h.call_blocks }
started (write_stdin chars) h = if is_empty (strip_lines chars) then h else note (add_input chars) h
started other_tool h = h

unfoldable pub on_tool_start : ℕ → ToolStart → Hooks → Bool × Hooks
on_tool_start now call h = maybe_flush now false (started call h)

pub data ToolEnd : Type 0 where
  exec_ended : Option Text → Text → ToolEnd
  write_ended : Text → ToolEnd
  other_ended : ToolEnd

abbrev pub block_of : Option Text → Dict Text ℕ → Option ℕ
block_of none d = none
block_of (some id) d = lookup Text-discrete id d

abbrev pub untrack : Option Text → Dict Text ℕ → Dict Text ℕ
untrack none d = d
untrack (some id) d = remove Text-discrete id d

-- `result.startswith(GATE_REFUSAL_PREFIX)`
unfoldable pub is_refusal : Text → Bool
is_refusal result = is_set (behind refusal_prefix result)

unfoldable pub add_result : Text → Option ℕ → Transcript → Transcript
add_result result block t =
    let r = parse_exec_result result in add_output r.output r.exit_code r.process_id block t

unfoldable pub exec_result : Text → Option ℕ → Hooks → Hooks
exec_result result block h =
    if is_refusal result then note (mark_held block) h else note (add_result result block) h

-- a result with nothing new
unfoldable pub is_poll : Text → Bool
is_poll result = let r = parse_exec_result result in is_empty r.output && not (is_set r.exit_code)

unfoldable pub on_tool_end : ℕ → ToolEnd → Hooks → Bool × Hooks
on_tool_end now (exec_ended call_id result) h = maybe_flush now false (
    exec_result result (block_of call_id h.call_blocks)
      (record h { call_blocks = untrack call_id h.call_blocks }))
on_tool_end now (write_ended result) h =
    if is_poll result then (false, h) else maybe_flush now false (note (add_result result none) h)
on_tool_end now other_ended h = (false, h)

-- What the SDK and the tool do to the hooks, and a message that was sent or edited. One response's
-- tool calls run at the same time, so other events come while a message is sent.
pub data Event : Type 0 where
  starts ends_llm begins_llm : Event
  ends : Text → Event
  tool_starts : ToolStart → Event
  tool_ends : ToolEnd → Event
  lands : Delivered → Event

-- an event at the clock's reading: whether a message begins to be sent or edited, and the state
unfoldable pub handle : Event → ℕ → Hooks → Bool × Hooks
handle starts now h = start h
handle begins_llm now h = (false, note (set_thinking true) h)
handle ends_llm now h = (false, note (set_thinking false) h)
handle (ends text) now h = finalize text h
handle (tool_starts call) now h = on_tool_start now call h
handle (tool_ends call) now h = on_tool_end now call h
handle (lands delivered) now h = (false, flush delivered now h)

unfoldable pub handle_all : List (Event × ℕ) → Hooks → Hooks
handle_all [] h = h
handle_all ((e, now) ∷ es) h = handle_all es (handle e now h).1
