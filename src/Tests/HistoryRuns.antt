-- ===== src/Tests/HistoryRuns.antt =====
-- Windows, anchors and budgets of the channel history, on small inputs.
use discord_chat_bot.Prelude.{
  ℕ, ◌≤◌, ◌<◌, ◌≡◌, ◌⊎◌, refl, false, none, some, List, [], ◌∷◌, length, pos, lookup, ℕ_discrete,
  arith,
}
use discord_chat_bot.Dict.{remove, set, move_to_end, evict}
use discord_chat_bot.History.{
  AnchorState, HistoryStore, Fetched, decide_as, keep, refresh, snapshot, none_given, burst,
  stale_trigger, text, parts, input_image, input_text, max_window, initial_decision, new_since,
  window_decision, minimum, oldest_included, state_after_refresh, get, put_newest, commit,
  text_tokens, part_tokens, content_tokens, estimate_tokens, history_budget, drop_loop, trim_count,
}
use discord_chat_bot.History.Budget.{sent, trim_count_lem}
use discord_chat_bot.History.Store.{
  IsValid, anchor, get_lem, Operation, read, write, apply, run, run-forward,
}

program : Unit {0}
unfolding remove set move_to_end evict max_window initial_decision new_since window_decision minimum
    oldest_included state_after_refresh get put_newest commit text_tokens part_tokens content_tokens
    estimate_tokens history_budget drop_loop trim_count lookup ℕ_discrete apply run
program = tt

abbrev at : ℕ → ℕ → AnchorState
at bound trigger = record { after_id = pos bound; refresh_trigger_id = trigger }

-- three messages after the bound, two of them newer than the last refresh
abbrev fetched : Fetched
fetched = (11, false) ∷ (21, false) ∷ (22, false) ∷ []

decisions_test :
    (window_decision (at 10 20) 23 fetched 5 10 ≡ decide_as keep none_given)
    × (window_decision (at 10 20) 23 fetched 1 2 ≡ decide_as refresh burst)
    × (initial_decision (some (at 10 20)) 15 ≡ some (decide_as snapshot stale_trigger))
unfolding program
decisions_test = (refl, refl, refl)

trim_test : (trim_count (50 ∷ 40 ∷ 30 ∷ []) 10 (some 60) ≡ 2) × (trim_count (50 ∷ []) 10 none ≡ 0)
unfolding program
trim_test = (refl, refl)

estimate_test : estimate_tokens (text 10 ∷ parts (input_image ∷ input_text 3 ∷ []) ∷ []) ≡ 1521
unfolding program
estimate_test = refl

trim_count_lem_example :
    (trim_count (50 ∷ 40 ∷ 30 ∷ []) 10 (some 60) ≤ length {A = ℕ} (50 ∷ 40 ∷ 30 ∷ []))
    × ((trim_count (50 ∷ 40 ∷ 30 ∷ []) 10 (some 60) ≡ length {A = ℕ} (50 ∷ 40 ∷ 30 ∷ []))
        ⊎ (sent (50 ∷ 40 ∷ 30 ∷ []) 10 (trim_count (50 ∷ 40 ∷ 30 ∷ []) 10 (some 60)) ≤ 60))
    × ((k : ℕ)
        → k < trim_count (50 ∷ 40 ∷ 30 ∷ []) 10 (some 60)
        → 60 < sent (50 ∷ 40 ∷ 30 ∷ []) 10 k)
trim_count_lem_example = trim_count_lem (50 ∷ 40 ∷ 30 ∷ []) 10 60

-- a store of two channels, of which three are used
abbrev small : HistoryStore ℕ
small = record { max_channels = 2; states = (1, at 10 20) ∷ (2, at 30 40) ∷ [] }

small-IsValid : IsValid ℕ_discrete small
unfolding program
small-IsValid = record { unique = (refl, (refl, tt)); bounded = omega arith }

abbrev work : List (Operation ℕ)
work = read 1 ∷ write 3 (at 50 60) ∷ write 1 (at 5 15) ∷ write 1 (at 20 30) ∷ []

work_test : (run ℕ_discrete small work).states ≡ (3, at 50 60) ∷ (1, at 20 30) ∷ []
unfolding program
work_test = refl

run-forward_example : 20 ≤ 30
unfolding program
run-forward_example =
    run-forward ℕ_discrete small work 1 (at 10 20) (at 20 30) small-IsValid
      ((λ e. cc), ((λ e. cc), ((λ e. cc), ((λ e. cc), tt)))) refl refl

get_lem_example :
    ((get ℕ_discrete small 1).0 ≡ anchor ℕ_discrete small 1)
    × (anchor ℕ_discrete (get ℕ_discrete small 1).1 2 ≡ anchor ℕ_discrete small 2)
get_lem_example = get_lem ℕ_discrete small 1 2
