-- ===== src/Queue.antt =====
-- core/classes/message_queue.py: when messages were enqueued, one lock for each channel, and the
-- registry of long tool runs. Clock readings are in microseconds; `now` is the reading that a
-- function takes. Every function is synchronous and so one step of the event loop.
pub mod Keys
pub mod Hint
pub mod Marks
pub mod Sound
pub mod Calls
use discord_chat_bot.Prelude.{
  ℕ, ◌+◌, ◌-◌, ◌*◌, ◌/◌, ◌%◌, Bool, true, false, not, Option, none, some, List, [], ◌∷◌, ◌++◌, ltb,
  leb, ◌==◌, if◌then◌else◌, length, take, drop, filter, map, lookup, ite, ℕ_discrete,
}
use discord_chat_bot.Dict.{set, remove, evict}
use discord_chat_bot.Text.{Text, codes, is_empty, strip, or_else, join, Text-discrete}
use discord_chat_bot.Text.Number.{show, show_two}

abbrev pub max_enqueued_tracked : ℕ
max_enqueued_tracked = 1024

abbrev pub Enqueued : Type 0
Enqueued = List (ℕ × ℕ)

unfoldable pub mark_enqueued : Enqueued → ℕ → ℕ → Enqueued
mark_enqueued d message_id now = evict max_enqueued_tracked (set ℕ_discrete message_id now d)

unfoldable pub pop_enqueued : Enqueued → ℕ → Option ℕ × Enqueued
pop_enqueued d message_id = (lookup ℕ_discrete message_id d, remove ℕ_discrete message_id d)

-- Locks are objects: `fresh` is the first that is not in use.
pub record Locks : Type 0 where
  pub locks : List (ℕ × ℕ)
  pub fresh : ℕ

unfoldable pub get_channel_lock : Locks → ℕ → ℕ × Locks
get_channel_lock s channel = elim (lookup ℕ_discrete channel s.locks) [
  | none ↦ (s.fresh, record { locks = set ℕ_discrete channel s.fresh s.locks; fresh = s.fresh + 1 })
  | some lock ↦ (lock, s)
]

abbrev pub second : ℕ
second = 1_000_000

abbrev pub max_source_chars : ℕ
max_source_chars = 120

abbrev pub recent_done_time : ℕ
recent_done_time = 300 * second

abbrev pub max_recent_done : ℕ
max_recent_done = 5

abbrev pub newline_to_space : ℕ → ℕ
newline_to_space c = if c == 10 then 32 else c

-- `_truncate` at its default limit; 8230 is the ellipsis
unfoldable pub truncate : Text → Text
truncate text =
    let flat = map newline_to_space (strip text) in
    if leb (length flat) max_source_chars
    then flat
    else take (max_source_chars - 1) flat ++ 8230 ∷ []

-- `now - started`, in seconds and not below 0
unfoldable pub format_elapsed : ℕ → Text
format_elapsed time =
    let seconds = time / second in
    if ltb seconds 60
    then show seconds ++ codes "s"
    else if ltb (seconds / 60) 60
    then show (seconds / 60) ++ (codes "m " ++ (show_two (seconds % 60) ++ codes "s"))
    else show (seconds / 60 / 60) ++ (codes "h " ++ (show_two (seconds / 60 % 60) ++ codes "m"))

pub record Run : Type 0 where
  pub label : Text
  pub source : Text
  pub started : ℕ

pub record Done : Type 0 where
  pub label : Text
  pub source : Text
  pub ended : ℕ

abbrev pub Runs : Type 0
Runs = List (Text × Run)

-- The three dictionaries over channel ids. A channel is in `order` exactly when it is in
-- `in_flight`, so neither function meets a channel that only one of them has.
pub record Registry : Type 0 where
  pub in_flight : List (ℕ × Runs)
  pub order : List (ℕ × List Text)
  pub recent : List (ℕ × List Done)

abbrev pub or_empty {ℓ} : {A : Type ℓ} → Option (List A) → List A
or_empty none = []
or_empty (some xs) = xs

abbrev pub given_key : Option Text → Text
given_key none = []
given_key (some k) = k

unfoldable pub run_key_of : Option Text → Text → Text
unfolding truncate
run_key_of run_key source = or_else (given_key run_key) (or_else (truncate source) (codes "task"))

-- a channel's first run starts both of its entries afresh
abbrev pub order_before : Option Runs → Option (List Text) → List Text
order_before none order = []
order_before (some runs) order = or_empty order

abbrev pub new_run : Text → Text → ℕ → Run
new_run label source started = record { label = label; source = truncate source; started = started }

unfoldable pub register_task_run : Registry → ℕ → Text → Text → Option Text → ℕ → Bool × Registry
unfolding run_key_of
register_task_run s channel label source run_key started =
    let key = run_key_of run_key source in
    let found = lookup ℕ_discrete channel s.in_flight in
    let runs = or_empty found in
    let keys = order_before found (lookup ℕ_discrete channel s.order) in
    let run = new_run label source started in
    elim (lookup Text-discrete key runs) [
      | some present ↦ (false, s)
      | none ↦ (
        true,
        record s {
          in_flight = set ℕ_discrete channel (set Text-discrete key run runs) s.in_flight;
          order = set ℕ_discrete channel (keys ++ key ∷ []) s.order;
        },
      )
    ]

-- `order.remove(key)`: the first one
unfoldable pub remove_first : Text → List Text → List Text
remove_first k [] = []
remove_first k (j ∷ js) = ite (Text-discrete k j) js (j ∷ remove_first k js)

unfoldable pub keep_recent : List Done → Done → List Done
keep_recent recent d = let grown = recent ++ d ∷ [] in drop (length grown - max_recent_done) grown

-- the run leaves `in_flight` and `order`; a channel with no run left has no entry
unfoldable pub drop_task_run : Registry → ℕ → Text → Runs → Registry
unfolding remove_first
drop_task_run s channel key runs =
    let left = remove Text-discrete key runs in
    let keys = remove_first key (or_empty (lookup ℕ_discrete channel s.order)) in
    if is_empty left
    then record s {
      in_flight = remove ℕ_discrete channel s.in_flight;
      order = remove ℕ_discrete channel s.order;
    }
    else record s {
      in_flight = set ℕ_discrete channel left s.in_flight;
      order = set ℕ_discrete channel keys s.order;
    }

unfoldable pub note_done : Registry → ℕ → Run → ℕ → Registry
unfolding keep_recent
note_done s channel run ended =
    let d : Done = record { label = run.label; source = run.source; ended = ended } in
    record s {
      recent =
          set ℕ_discrete channel (keep_recent (or_empty (lookup ℕ_discrete channel s.recent)) d)
            s.recent;
    }

unfoldable pub unregister_task_run : Registry → ℕ → Option Text → Bool → ℕ → Bool × Registry
unfolding drop_task_run note_done
unregister_task_run s channel none finish ended = (false, s)
unregister_task_run s channel (some key) finish ended =
    let runs = or_empty (lookup ℕ_discrete channel s.in_flight) in
    elim (lookup Text-discrete key runs) [
      | none ↦ (false, s)
      | some run ↦
          let left = drop_task_run s channel key runs in
          (true, if finish then note_done left channel run ended else left)
    ]

-- a run that ended at most five minutes ago
unfoldable pub is_recent : ℕ → Done → Bool
is_recent now d = leb (now - d.ended) recent_done_time

unfoldable pub running_line : ℕ → Run → Text
unfolding format_elapsed
running_line now run =
    codes "- "
    ++ (run.label
        ++ (codes " running for "
            ++ (format_elapsed (now - run.started) ++ (codes " — " ++ run.source))))

unfoldable pub done_line : ℕ → Done → Text
unfolding format_elapsed
done_line now d =
    codes "- "
    ++ (d.label
        ++ (codes " finished "
            ++ (format_elapsed (now - d.ended)
                ++ (codes " ago — "
                    ++ (d.source ++ codes " (result already sent to the channel)")))))

-- the runs of the channel in the order in which they were registered
unfoldable pub runs_in : Runs → List Text → List Run
runs_in runs [] = []
runs_in runs (key ∷ keys) =
    let rest = runs_in runs keys in
    elim (lookup Text-discrete key runs) [ none ↦ rest | some run ↦ run ∷ rest ]

abbrev pub hint_header : Text
hint_header =
    codes "Note: this is an automatic status note about this channel, not a message from the user."

abbrev pub running_header : Text
running_header = codes "Earlier request(s) still being processed right now:"

abbrev pub done_header : Text
done_header =
    codes
      "Already FINISHED (nothing left to wait for — the result is already in the channel above; never say this work is still coming, on its way, or will arrive shortly):"

-- a header before its lines, if there are any
abbrev pub section_of : Text → List Text → List Text
section_of header [] = []
section_of header (l ∷ ls) = header ∷ l ∷ ls

unfoldable pub hint_text : List Text → List Text → Text
hint_text running done =
    if is_empty (running ++ done)
    then []
    else join (codes "\n")
        (hint_header ∷ section_of running_header running ++ section_of done_header done)

-- `kept` in place of the channel's `recent`, with no entry for an empty list
unfoldable pub store_kept : List (ℕ × List Done) → ℕ → List Done → List Done → List (ℕ × List Done)
store_kept stored channel recent kept =
    let changed =
      if length kept == length recent then stored else set ℕ_discrete channel kept stored in
    if is_empty kept then remove ℕ_discrete channel changed else changed

-- the stale runs of the channel leave `recent`
unfoldable pub prune_recent : Registry → ℕ → ℕ → Registry
unfolding is_recent store_kept
prune_recent s channel now =
    let recent = or_empty (lookup ℕ_discrete channel s.recent) in
    record s {
      recent =
          if is_empty recent
          then s.recent
          else store_kept s.recent channel recent (filter (is_recent now) recent);
    }

unfoldable pub in_flight_hint : Registry → ℕ → ℕ → Text × Registry
unfolding hint_text prune_recent runs_in running_line done_line is_recent
in_flight_hint s channel now =
    let runs = or_empty (lookup ℕ_discrete channel s.in_flight) in
    let keys = or_empty (lookup ℕ_discrete channel s.order) in
    let recent = or_empty (lookup ℕ_discrete channel s.recent) in
    (
      hint_text (map (running_line now) (runs_in runs keys))
          (map (done_line now) (filter (is_recent now) recent)),
      prune_recent s channel now,
    )
