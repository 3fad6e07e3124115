-- ===== src/Tests/QueueRuns.antt =====
-- Marks, locks and long runs on two channels.
use discord_chat_bot.Prelude.{◌≡◌, refl, true, none, some, [], ◌∷◌, map, ◌*◌, lookup, ℕ_discrete}
use discord_chat_bot.Text.{codes, is_space, lstrip, rstrip, strip, join, Text-discrete}
use discord_chat_bot.Text.Number.{digits, show, show_two}
use discord_chat_bot.Dict.{set, remove, evict}
use discord_chat_bot.Queue.{
  second, mark_enqueued, pop_enqueued, get_channel_lock, truncate, format_elapsed, Registry,
  run_key_of, register_task_run, remove_first, keep_recent, drop_task_run, note_done,
  unregister_task_run, is_recent, running_line, done_line, runs_in, hint_text, store_kept,
  prune_recent, in_flight_hint,
}
use discord_chat_bot.Queue.Sound.{IsSound, recent_of}
use discord_chat_bot.Queue.Calls.{register, hint, after, calls, no_runs, calls-IsSound}

program : Unit {0}
unfolding is_space lstrip rstrip strip join digits show show_two set remove evict mark_enqueued
    pop_enqueued get_channel_lock truncate format_elapsed run_key_of register_task_run remove_first
    keep_recent drop_task_run note_done unregister_task_run is_recent running_line done_line runs_in
    hint_text store_kept prune_recent in_flight_hint after calls lookup ℕ_discrete Text-discrete
program = tt

elapsed_test :
    map format_elapsed (59 * second ∷ 60 * second ∷ 3725 * second ∷ [])
    ≡ codes "59s" ∷ codes "1m 00s" ∷ codes "1h 02m" ∷ []
unfolding program
elapsed_test = refl

truncate_test : truncate (codes "  a\nb ") ≡ codes "a b"
unfolding program
truncate_test = refl

abbrev busy : Registry
busy =
    calls no_runs (register 1 (codes "Sandbox") (codes "build it") (some (codes "k")) second ∷ [])

hint_test :
    (in_flight_hint busy 1 (63 * second)).0
    ≡ codes
        "Note: this is an automatic status note about this channel, not a message from the user.\nEarlier request(s) still being processed right now:\n- Sandbox running for 1m 02s — build it"
unfolding program
hint_test = refl

finished_test :
    map
      (λ d. d.label)
      (recent_of (unregister_task_run busy 1 (some (codes "k")) true (9 * second)).1 1)
    ≡ codes "Sandbox" ∷ []
unfolding program
finished_test = refl

calls-IsSound_example :
    IsSound (calls no_runs (register 1 (codes "Image") (codes "a cat") none 3 ∷ hint 1 9 ∷ []))
calls-IsSound_example =
    calls-IsSound (register 1 (codes "Image") (codes "a cat") none 3 ∷ hint 1 9 ∷ [])
