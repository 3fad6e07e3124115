-- ===== src/Queue/Calls.antt =====
-- The calls of the registry of long runs in core/classes/message_queue.py, and sequences of them.
use discord_chat_bot.Prelude.{
  ℕ, ◌≡◌, ◌↔◌, inl, inr, refl, Bool, true, false, Option, none, some, List, [], ◌∷◌, lookup, ite,
  ℕ_discrete, Option-cases, Bool-cases, arith,
}
use discord_chat_bot.Dict.{set, remove}
use discord_chat_bot.Dict.Laws.{lookup-remove, lookup-set}
use discord_chat_bot.Text.{Text, Text-discrete, is_empty}
use discord_chat_bot.Queue.{
  Run, Runs, Registry, or_empty, new_run, run_key_of, register_task_run, drop_task_run, note_done,
  unregister_task_run, in_flight_hint,
}
use discord_chat_bot.Queue.Sound.{
  runs_of, IsSound, is_empty-nil, register_task_run-IsSound, unregister_task_run-IsSound,
  prune_recent-IsSound,
}

-- The run that a channel tracks under a key.
abbrev pub tracked : Registry → ℕ → Text → Option Run
tracked s channel key = lookup Text-discrete key (runs_of s channel)

-- the run that is there, or the new one
abbrev pub first_of : Option Run → Run → Run
first_of none run = run
first_of (some present) run = present

or_empty-set :
    (channel c : ℕ) (key k : Text) (run : Run) (d : List (ℕ × Runs))
    → lookup Text-discrete k (
        or_empty (
          lookup ℕ_discrete c (
            set ℕ_discrete channel
              (set Text-discrete key run (or_empty (lookup ℕ_discrete channel d)))
              d)))
      ≡ ite
          (ℕ_discrete c channel)
          (ite
            (Text-discrete k key)
            (some run)
            (lookup Text-discrete k (or_empty (lookup ℕ_discrete channel d))))
          (lookup Text-discrete k (or_empty (lookup ℕ_discrete c d)))
or_empty-set channel c key k run d =
    let runs = or_empty (lookup ℕ_discrete channel d) in
    rw (lookup-set ℕ_discrete channel c (set Text-discrete key run runs) d)
      (elim (ℕ_discrete c channel)
        as (λ x.
          lookup Text-discrete k
            (or_empty (ite x (some (set Text-discrete key run runs)) (lookup ℕ_discrete c d)))
          ≡ ite x (ite (Text-discrete k key) (some run) (lookup Text-discrete k runs))
              (lookup Text-discrete k (or_empty (lookup ℕ_discrete c d)))) [
                | yes e ↦ lookup-set Text-discrete key k run runs
                | no n ↦ refl
              ])

module _ (s : Registry) (channel : ℕ) (label source : Text) (run_key : Option Text)
    (started : ℕ) where
  -- Registering reports whether the key was free, and then exactly that key of that channel tracks
  -- the new run.
  pub register_task_run_lem :
      (c : ℕ) (k : Text)
      → (((register_task_run s channel label source run_key started).0 ≡ true)
          ↔ (tracked s channel (run_key_of run_key source) ≡ none))
        × (tracked (register_task_run s channel label source run_key started).1 c k
            ≡ ite
                (ℕ_discrete c channel)
                (ite
                  (Text-discrete k (run_key_of run_key source))
                  (some (
                    first_of
                      (tracked s channel (run_key_of run_key source))
                      (new_run label source started)))
                  (tracked s channel k))
                (tracked s c k))
  unfolding register_task_run
  register_task_run_lem c k =
      let key = run_key_of run_key source in
      elim (Option-cases (tracked s channel key)) [
        | inl e ↦
            rw (e, register_task_run)
              (
                (λ _. refl, λ _. refl),
                or_empty-set channel c key k (new_run label source started) s.in_flight,
              )
        | inr (run, e) ↦ rw (e, register_task_run) (ground (arith, e))
      ]

module _ (s : Registry) (channel : ℕ) (key : Text) where
  -- a run that leaves
  tracked-drop_task_run :
      (c : ℕ) (k : Text)
      → tracked (drop_task_run s channel key (runs_of s channel)) c k
        ≡ ite
            (ℕ_discrete c channel)
            (ite (Text-discrete k key) none (tracked s channel k))
            (tracked s c k)
  unfolding drop_task_run lookup
  tracked-drop_task_run c k =
      let left = remove Text-discrete key (runs_of s channel) in
      let gone = lookup-remove Text-discrete key k (runs_of s channel) in
      elim (Bool-cases (is_empty left)) [
        | inl e ↦
            let n : lookup Text-discrete k left ≡ none = rw (is_empty-nil left e) refl in
            rw (e, drop_task_run)
              (ground (arith, gone, n, lookup-remove ℕ_discrete channel c s.in_flight))
        | inr e ↦
            rw (e, drop_task_run)
              (ground (arith, gone, lookup-set ℕ_discrete channel c left s.in_flight))
      ]

  -- Unregistering reports whether the key is tracked; that key of that channel is no longer, and
  -- the others are as they were.
  pub unregister_task_run_lem :
      (finish : Bool) (ended c : ℕ) (k : Text)
      → (((unregister_task_run s channel (some key) finish ended).0 ≡ false)
          ↔ (tracked s channel key ≡ none))
        × (tracked (unregister_task_run s channel (some key) finish ended).1 c k
            ≡ ite
                (ℕ_discrete c channel)
                (ite (Text-discrete k key) none (tracked s channel k))
                (tracked s c k))
  unfolding unregister_task_run note_done
  unregister_task_run_lem finish ended c k = elim (Option-cases (tracked s channel key)) [
    | inl e ↦ rw (e, unregister_task_run) (ground (arith, e))
    | inr (run, e) ↦ elim (Bool-cases finish) [
      | inl f ↦ rw (e, unregister_task_run, f) (ground (arith, tracked-drop_task_run c k))
      | inr f ↦ rw (e, unregister_task_run, f) (ground (arith, tracked-drop_task_run c k))
    ]
  ]

-- Where the key is free, registering it and taking it away again leaves every channel's runs as
-- they were.
pub unregister-register :
    (s : Registry) (channel : ℕ) (label source key : Text) (started ended : ℕ)
    → tracked s channel (run_key_of (some key) source) ≡ none
    → (c : ℕ) (k : Text)
    → tracked
        (unregister_task_run
          (register_task_run s channel label source (some key) started).1
          channel
          (some (run_key_of (some key) source))
          false
          ended).1
        c
        k
      ≡ tracked s c k
unregister-register s channel label source key started ended h c k =
    let name = run_key_of (some key) source in
    let s' = (register_task_run s channel label source (some key) started).1 in
    ground (
      arith,
      h,
      (unregister_task_run_lem s' channel name false ended c k).1,
      (register_task_run_lem s channel label source (some key) started c k).1,
      (register_task_run_lem s channel label source (some key) started channel k).1,
    )

-- The calls on the registry.
pub data Call : Type 0 where
  register : ℕ → Text → Text → Option Text → ℕ → Call
  unregister : ℕ → Option Text → Bool → ℕ → Call
  hint : ℕ → ℕ → Call

unfoldable pub after : Registry → Call → Registry
after s (register c label source k started) = (register_task_run s c label source k started).1
after s (unregister c k finish ended) = (unregister_task_run s c k finish ended).1
after s (hint c now) = (in_flight_hint s c now).1

unfoldable pub calls : Registry → List Call → Registry
unfolding after
calls s [] = s
calls s (x ∷ xs) = calls (after s x) xs

abbrev pub no_runs : Registry
no_runs = record { in_flight = []; order = []; recent = [] }

after-IsSound : (s : Registry) (x : Call) → IsSound s → IsSound (after s x)
unfolding after in_flight_hint
after-IsSound s (register c label source k started) h =
    register_task_run-IsSound s h c label source k started
after-IsSound s (unregister c k finish ended) h = unregister_task_run-IsSound s h c k finish ended
after-IsSound s (hint c now) h = prune_recent-IsSound s h c now

calls_from : (s : Registry) (xs : List Call) → IsSound s → IsSound (calls s xs)
unfolding calls
calls_from s [] h = h
calls_from s (x ∷ xs) h = calls_from (after s x) xs (after-IsSound s x h)

-- From no runs, any sequence of calls keeps a channel's order in step with its runs, leaves no
-- entry for a channel without runs, and keeps at most five finished runs of each.
pub calls-IsSound : (xs : List Call) → IsSound (calls no_runs xs)
unfolding lookup
calls-IsSound xs = calls_from no_runs xs record { step = λ c. tt; short = λ c. omega arith }
