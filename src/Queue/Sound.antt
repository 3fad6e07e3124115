-- ===== src/Queue/Sound.antt =====
-- The invariant of the registry of long runs in core/classes/message_queue.py.
use discord_chat_bot.Prelude.{
  ℕ, ◌-◌, ◌≤◌, ◌≡◌, inl, inr, refl, sym, ap, Bool, true, false, Option, none, some, List, [], ◌∷◌,
  ◌++◌, length, length-drop, length-filter-le, filter, filter_full, lookup, ite, ℕ_discrete,
  Option-cases, Bool-cases, arith,
}
use discord_chat_bot.Dict.{set, remove, IsUnique}
use discord_chat_bot.Dict.Laws.{lookup-remove, lookup-set, set-IsUnique, remove-IsUnique}
use discord_chat_bot.Text.{Text, Text-discrete, is_empty}
use discord_chat_bot.Queue.{
  max_recent_done, Run, Done, Runs, Registry, or_empty, run_key_of, register_task_run,
  drop_task_run, is_recent, note_done, store_kept, new_run, unregister_task_run, prune_recent,
  keep_recent, remove_first, order_before,
}
use discord_chat_bot.Queue.Keys.{keys, keys-set, keys-remove}

abbrev pub runs_of : Registry → ℕ → Runs
runs_of s c = or_empty (lookup ℕ_discrete c s.in_flight)

abbrev pub recent_of : Registry → ℕ → List Done
recent_of s c = or_empty (lookup ℕ_discrete c s.recent)

-- A channel has both entries or none, and its order is that of its runs, of which there is one.
abbrev pub IsStep : Option Runs → Option (List Text) → Type 0
IsStep none none = Unit
IsStep none (some ks) = ⊥
IsStep (some runs) none = ⊥
IsStep (some runs) (some ks) =
    (ks ≡ keys runs) × (is_empty runs ≡ false) × IsUnique Text-discrete runs

pub record IsSound (s : Registry) : Type 0 where
  pub step : (c : ℕ) → IsStep (lookup ℕ_discrete c s.in_flight) (lookup ℕ_discrete c s.order)
  pub short : (c : ℕ) → length (recent_of s c) ≤ max_recent_done

IsStep-ite :
    {P : Type 0} (d : Dec P) (a x : Option Runs) (b y : Option (List Text))
    → IsStep a b
    → IsStep x y
    → IsStep (ite d a x) (ite d b y)
IsStep-ite (yes p) a x b y h k = h
IsStep-ite (no n) a x b y h k = k

-- Changing one channel's entries keeps the others in step.
IsStep-set :
    (s : Registry) (channel : ℕ) (runs : Runs) (ks : List Text)
    → IsStep (some runs) (some ks)
    → ((c : ℕ) → IsStep (lookup ℕ_discrete c s.in_flight) (lookup ℕ_discrete c s.order))
    → (c : ℕ)
    → IsStep
        (lookup ℕ_discrete c (set ℕ_discrete channel runs s.in_flight))
        (lookup ℕ_discrete c (set ℕ_discrete channel ks s.order))
IsStep-set s channel runs ks k h c =
    rw
      (lookup-set ℕ_discrete channel c runs s.in_flight, lookup-set ℕ_discrete channel c ks s.order)
      (IsStep-ite (ℕ_discrete c channel) (some runs) (lookup ℕ_discrete c s.in_flight) (some ks)
        (lookup ℕ_discrete c s.order) k (h c))

IsStep-remove :
    (s : Registry) (channel : ℕ)
    → ((c : ℕ) → IsStep (lookup ℕ_discrete c s.in_flight) (lookup ℕ_discrete c s.order))
    → (c : ℕ)
    → IsStep
        (lookup ℕ_discrete c (remove ℕ_discrete channel s.in_flight))
        (lookup ℕ_discrete c (remove ℕ_discrete channel s.order))
IsStep-remove s channel h c =
    rw (lookup-remove ℕ_discrete channel c s.in_flight, lookup-remove ℕ_discrete channel c s.order)
      (IsStep-ite (ℕ_discrete c channel) none (lookup ℕ_discrete c s.in_flight) none
        (lookup ℕ_discrete c s.order) tt (h c))

-- What a channel's dictionaries hold when they are in step.
IsStep-keys :
    (found : Option Runs) (ks : Option (List Text))
    → IsStep found ks
    → (order_before found ks ≡ keys (or_empty found))
      × (or_empty ks ≡ keys (or_empty found))
      × IsUnique Text-discrete (or_empty found)
IsStep-keys none none h = (refl, refl, tt)
IsStep-keys none (some ks) h = elim h [ ]
IsStep-keys (some runs) none h = elim h [ ]
IsStep-keys (some runs) (some ks) h = (h.0, h.0, h.2)

set-full : (k : Text) (run : Run) (d : Runs) → is_empty (set Text-discrete k run d) ≡ false
unfolding set
set-full k run [] = refl
set-full k run ((j, w) ∷ d) = ground arith

module _ (s : Registry) (h : IsSound s) (channel : ℕ) where
  abbrev in_step :
      (order_before (lookup ℕ_discrete channel s.in_flight) (lookup ℕ_discrete channel s.order)
        ≡ keys (runs_of s channel))
      × (or_empty (lookup ℕ_discrete channel s.order) ≡ keys (runs_of s channel))
      × IsUnique Text-discrete (runs_of s channel)
  in_step =
      IsStep-keys (lookup ℕ_discrete channel s.in_flight) (lookup ℕ_discrete channel s.order)
        (h.step channel)

  pub register_task_run-IsSound :
      (label source : Text) (run_key : Option Text) (started : ℕ)
      → IsSound (register_task_run s channel label source run_key started).1
  unfolding register_task_run
  register_task_run-IsSound label source run_key started =
      let k = run_key_of run_key source in
      let runs = runs_of s channel in
      let run = new_run label source started in
      let ks =
        order_before (lookup ℕ_discrete channel s.in_flight) (lookup ℕ_discrete channel s.order) in
      elim (Option-cases (lookup Text-discrete k runs)) [
        | inl e ↦
            let more : ks ++ k ∷ [] ≡ keys (set Text-discrete k run runs) =
              rw in_step.0 (sym (keys-set k run runs e)) in
            rw (e, register_task_run)
              record {
                step =
                    IsStep-set s channel (set Text-discrete k run runs) (ks ++ k ∷ [])
                      (more, set-full k run runs, set-IsUnique Text-discrete k run runs in_step.2)
                      h.step;
                short = h.short;
              }
        | inr (r, e) ↦ rw (e, register_task_run) h
      ]

  drop_task_run-IsSound : (k : Text) → IsSound (drop_task_run s channel k (runs_of s channel))
  unfolding drop_task_run
  drop_task_run-IsSound k =
      let left = remove Text-discrete k (runs_of s channel) in
      let ks = or_empty (lookup ℕ_discrete channel s.order) in
      elim (Bool-cases (is_empty left)) [
        | inl e ↦
            rw (e, drop_task_run) record { step = IsStep-remove s channel h.step; short = h.short }
        | inr e ↦
            let less : remove_first k ks ≡ keys left =
              rw in_step.1 (sym (keys-remove k (runs_of s channel) in_step.2)) in
            rw (e, drop_task_run)
              record {
                step =
                    IsStep-set s channel left (remove_first k ks)
                      (less, e, remove-IsUnique Text-discrete k (runs_of s channel) in_step.2)
                      h.step;
                short = h.short;
              }
      ]

length-keep_recent :
    (recent : List Done) (d : Done) → length (keep_recent recent d) ≤ max_recent_done
unfolding keep_recent
length-keep_recent recent d =
    let grown = recent ++ d ∷ [] in
    omega (arith, length-drop (length grown - max_recent_done) grown)

or_empty-ite :
    {P : Type 0} (dec : Dec P) (xs : List Done) (o : Option (List Done))
    → length xs ≤ max_recent_done
    → length (or_empty o) ≤ max_recent_done
    → length (or_empty (ite dec (some xs) o)) ≤ max_recent_done
or_empty-ite (yes p) xs o h k = h
or_empty-ite (no n) xs o h k = k

module _ (s : Registry) (h : IsSound s) (channel : ℕ) where
  note_done-IsSound : (run : Run) (ended : ℕ) → IsSound (note_done s channel run ended)
  unfolding note_done
  note_done-IsSound run ended =
      let d : Done = record { label = run.label; source = run.source; ended = ended } in
      let kept = keep_recent (recent_of s channel) d in
      record {
        step = h.step;
        short = λ c. rw (lookup-set ℕ_discrete channel c kept s.recent) (
            or_empty-ite (ℕ_discrete c channel) kept (lookup ℕ_discrete c s.recent)
              (length-keep_recent (recent_of s channel) d) (h.short c));
      }

lookup-store_kept :
    (stored : List (ℕ × List Done)) (channel c : ℕ) (recent kept : List Done)
    → or_empty (lookup ℕ_discrete channel stored) ≡ recent
    → (length kept ≡ length recent → kept ≡ recent)
    → or_empty (lookup ℕ_discrete c (store_kept stored channel recent kept))
      ≡ ite (ℕ_discrete c channel) kept (or_empty (lookup ℕ_discrete c stored))
unfolding store_kept
lookup-store_kept stored channel c recent [] e same = ground (
  arith,
  lookup-set ℕ_discrete channel c [] stored,
  lookup-remove ℕ_discrete channel c stored,
  lookup-remove ℕ_discrete channel c (set ℕ_discrete channel [] stored),
)
lookup-store_kept stored channel c recent (d ∷ ds) e same =
    ground (arith, lookup-set ℕ_discrete channel c (d ∷ ds) stored)

short-ite :
    {P : Type 0} (dec : Dec P) (xs ys : List Done)
    → length xs ≤ max_recent_done
    → length ys ≤ max_recent_done
    → length (ite dec xs ys) ≤ max_recent_done
short-ite (yes p) xs ys h k = h
short-ite (no n) xs ys h k = k

pub is_empty-nil {ℓ} : {A : Type ℓ} (xs : List A) → is_empty xs ≡ true → xs ≡ []
is_empty-nil [] h = refl
is_empty-nil (x ∷ xs) h = ground arith

module _ (s : Registry) (h : IsSound s) (channel : ℕ) where
  pub unregister_task_run-IsSound :
      (run_key : Option Text) (finish : Bool) (ended : ℕ)
      → IsSound (unregister_task_run s channel run_key finish ended).1
  unfolding unregister_task_run
  unregister_task_run-IsSound none finish ended = h
  unregister_task_run-IsSound (some k) finish ended =
      let left = drop_task_run s channel k (runs_of s channel) in
      elim (Option-cases (lookup Text-discrete k (runs_of s channel))) [
        | inl e ↦ rw (e, unregister_task_run) h
        | inr (run, e) ↦ elim (Bool-cases finish) [
          | inl f ↦
              rw (e, unregister_task_run, f)
                (note_done-IsSound left (drop_task_run-IsSound s h channel k) channel run ended)
          | inr f ↦ rw (e, unregister_task_run, f) (drop_task_run-IsSound s h channel k)
        ]
      ]

  -- Pruning keeps of the channel's finished runs the recent ones, and what others have.
  pub recent_of-prune :
      (now c : ℕ)
      → recent_of (prune_recent s channel now) c
        ≡ ite (ℕ_discrete c channel) (filter (is_recent now) (recent_of s channel)) (recent_of s c)
  unfolding prune_recent
  recent_of-prune now c =
      let recent = recent_of s channel in
      let kept = filter (is_recent now) recent in
      elim (Bool-cases (is_empty recent)) [
        | inl e ↦
            let n : recent ≡ [] = is_empty-nil recent e in
            let k : kept ≡ [] = ap (filter (is_recent now)) n in rw (e, prune_recent) (ground arith)
        | inr e ↦
            rw (e, prune_recent)
              (lookup-store_kept s.recent channel c recent kept refl
                (filter_full (is_recent now) recent))
      ]

  pub prune_recent-IsSound : (now : ℕ) → IsSound (prune_recent s channel now)
  unfolding prune_recent
  prune_recent-IsSound now = record {
    step = h.step;
    short = λ c. rw (recent_of-prune now c) (
        short-ite (ℕ_discrete c channel) (filter (is_recent now) (recent_of s channel))
          (recent_of s c)
          (omega (arith, length-filter-le (is_recent now) (recent_of s channel), h.short channel))
          (h.short c));
  }
