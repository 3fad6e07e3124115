-- ===== src/Progress/Spaced.antt =====
-- How often the hooks of a run bring its message up to date.
use discord_chat_bot.Prelude.{
  ℕ, ◌+◌, ◌≡◌, inl, inr, refl, ap₂, subst, Bool, true, false, not, ◌&&◌, ◌||◌, List, [], ◌∷◌,
  Option, none, leb, Bool-cases, arith,
}
use discord_chat_bot.Text.{Text, is_empty}
use discord_chat_bot.Progress.{strip_lines}
use discord_chat_bot.Progress.Hooks.{
  Hooks, shown, not_found, failed, Event, starts, begins_llm, ends_llm, ends, tool_starts,
  tool_ends, lands, ToolStart, ToolEnd, exec_command, write_stdin, other_tool, exec_ended,
  write_ended, other_ended, block_of, untrack, flush, is_due, maybe_flush, note, start, finalize,
  started, on_tool_start, add_result, exec_result, is_refusal, is_poll, on_tool_end, handle,
}

abbrev is_tool : Event → Bool
is_tool (tool_starts call) = true
is_tool (tool_ends call) = true
is_tool _ = false

-- the time at which a message was last brought up to date
abbrev last_shown : Event → ℕ → ℕ → ℕ
last_shown (lands shown) now last = now
last_shown _ now last = last

-- a tool call begins to send or edit a message only at the interval or more after the time
abbrev waits_for : ℕ → ℕ → Event → ℕ → Hooks → Bool
waits_for interval last e now h = not (is_tool e && (handle e now h).0) || leb (last + interval) now

unfoldable pub is_spaced : ℕ → ℕ → List (Event × ℕ) → Hooks → Bool
is_spaced interval last [] h = true
is_spaced interval last ((e, now) ∷ es) h =
    waits_for interval last e now h
    && is_spaced interval (last_shown e now last) es (handle e now h).1

-- a step that does not touch the throttle
abbrev IsQuiet : Hooks → Hooks → Type 0
IsQuiet h h' = (h'.edit_interval ≡ h.edit_interval) × (h'.last_flush ≡ h.last_flush)

started-IsQuiet : (call : ToolStart) (h : Hooks) → IsQuiet h (started call h)
unfolding started note
started-IsQuiet (exec_command [] id) h = (refl, refl)
started-IsQuiet (exec_command (c ∷ cmd) id) h = (refl, refl)
started-IsQuiet (write_stdin chars) h = elim (Bool-cases (is_empty (strip_lines chars))) [
  | inl e ↦ rw e (refl, refl)
  | inr e ↦ rw e (refl, refl)
]
started-IsQuiet other_tool h = (refl, refl)

exec_result-IsQuiet :
    (result : Text) (block : Option ℕ) (id : Option Text) (h : Hooks)
    → IsQuiet h (exec_result result block (record h { call_blocks = untrack id h.call_blocks }))
unfolding exec_result note
exec_result-IsQuiet result block id h = elim (Bool-cases (is_refusal result)) [
  | inl e ↦ rw e (refl, refl)
  | inr e ↦ rw e (refl, refl)
]

-- what a step keeps: the throttle waits, and remembers when the message was brought up to date
pub record IsStep (e : Event) (now : ℕ) (h : Hooks) : Type 0 where
  pub waits : waits_for h.edit_interval h.last_flush e now h ≡ true
  pub interval : (handle e now h).1.edit_interval ≡ h.edit_interval
  pub remembers : (handle e now h).1.last_flush ≡ last_shown e now h.last_flush

due_waits :
    (now : ℕ) (h h' : Hooks)
    → IsQuiet h h'
    → (not (is_due now false h') || leb (h.last_flush + h.edit_interval) now) ≡ true
unfolding is_due
due_waits now h h' (a, b) = ground (arith, a, b)

tool_ends-IsStep : (call : ToolEnd) (now : ℕ) (h : Hooks) → IsStep (tool_ends call) now h
unfolding handle on_tool_end maybe_flush note
tool_ends-IsStep (exec_ended id result) now h =
    let q = exec_result-IsQuiet result (block_of id h.call_blocks) id h in
    record { waits = due_waits now h _ q; interval = q.0; remembers = q.1 }
tool_ends-IsStep (write_ended result) now h = elim (Bool-cases (is_poll result)) [
  | inl e ↦ record { waits = rw e refl; interval = rw e refl; remembers = rw e refl }
  | inr e ↦ record {
    waits = rw e (due_waits now h (note (add_result result none) h) (refl, refl));
    interval = rw e refl;
    remembers = rw e refl;
  }
]
tool_ends-IsStep other_ended now h = record { waits = refl; interval = refl; remembers = refl }

ends-IsStep : (text : Text) (now : ℕ) (h : Hooks) → IsStep (ends text) now h
unfolding handle finalize
ends-IsStep text now h = elim (Bool-cases h.finalized) [
  | inl e ↦ record { waits = refl; interval = rw e refl; remembers = rw e refl }
  | inr e ↦ record { waits = refl; interval = rw e refl; remembers = rw e refl }
]

handle-IsStep : (e : Event) (now : ℕ) (h : Hooks) → IsStep e now h
unfolding handle start note on_tool_start maybe_flush flush
handle-IsStep starts now h = record { waits = refl; interval = refl; remembers = refl }
handle-IsStep begins_llm now h = record { waits = refl; interval = refl; remembers = refl }
handle-IsStep ends_llm now h = record { waits = refl; interval = refl; remembers = refl }
handle-IsStep (ends text) now h = ends-IsStep text now h
handle-IsStep (tool_starts call) now h =
    let q = started-IsQuiet call h in
    record { waits = due_waits now h (started call h) q; interval = q.0; remembers = q.1 }
handle-IsStep (tool_ends call) now h = tool_ends-IsStep call now h
handle-IsStep (lands shown) now h = record { waits = refl; interval = refl; remembers = refl }
handle-IsStep (lands not_found) now h = record { waits = refl; interval = refl; remembers = refl }
handle-IsStep (lands failed) now h = record { waits = refl; interval = refl; remembers = refl }

-- Over any events of a run, also ones that come while a message is sent, a tool call begins to send
-- or edit the message only at the edit interval or more after it was last brought up to date, which
-- is when that sending or edit had ended. So two tool calls may begin before either has ended.
pub handle-is_spaced :
    (es : List (Event × ℕ)) (h : Hooks) → is_spaced h.edit_interval h.last_flush es h ≡ true
unfolding is_spaced
handle-is_spaced [] h = refl
handle-is_spaced ((e, now) ∷ es) h =
    let k = handle-IsStep e now h in
    let h' = (handle e now h).1 in
    let rest =
      subst (λ i. is_spaced i (last_shown e now h.last_flush) es h' ≡ true) k.interval
        (subst (λ t. is_spaced h'.edit_interval t es h' ≡ true) k.remembers
          (handle-is_spaced es h')) in
    ap₂ (λ a b. a && b) k.waits rest
