-- ===== src/History.antt =====
-- core/classes/history_policy.py: which Discord messages go into a prompt.
-- The decisions and the store of anchors. Message ids are Discord's, so numbers from 0 up;
-- the anchor's bound is one below an id and so an integer. The proofs are in the modules below.
pub mod Decide
pub mod Budget
pub mod Store
use discord_chat_bot.Prelude.{
  ℕ, zero, suc, ◌+◌, ◌-◌, ◌/◌, min, Bool, true, false, Option, none, some, List, [], ◌∷◌, ℤ, pos,
  negsuc, pred_ℤ, ltb, leb, if◌then◌else◌, length, any, filter, sum, map, lookup,
}
use discord_chat_bot.Dict.{set, move_to_end, evict}

pub data Kind : Type 0 where
  keep refresh snapshot : Kind

-- `none_given` is the default reason, "".
pub data Reason : Type 0 where
  none_given cold threshold burst reset token_budget stale_trigger : Reason

pub record Decision : Type 0 where
  pub kind : Kind
  pub reason : Reason

pub record AnchorState : Type 0 where
  pub after_id : ℤ
  pub refresh_trigger_id : ℕ

abbrev pub decide_as : Kind → Reason → Decision
decide_as kind reason = record { kind = kind; reason = reason }

unfoldable pub max_window : ℕ → ℕ → ℕ
max_window limit refresh_every = limit + refresh_every - 2

unfoldable pub initial_decision : Option AnchorState → ℕ → Option Decision
initial_decision none trigger_id = some (decide_as refresh cold)
initial_decision (some state) trigger_id =
    if ltb trigger_id state.refresh_trigger_id
    then some (decide_as snapshot stale_trigger)
    else none

-- `fetched` is [(message_id, is_reset)], oldest first.
abbrev pub Fetched : Type 0
Fetched = List (ℕ × Bool)

-- the messages that came after the last refresh
unfoldable pub new_since : ℕ → Fetched → Fetched
new_since refresh_id = filter (λ m. ltb refresh_id m.0)

unfoldable pub window_decision : AnchorState → ℕ → Fetched → ℕ → ℕ → Decision
unfolding max_window new_since
window_decision state trigger_id fetched limit refresh_every =
    if ltb (max_window limit refresh_every) (length fetched)
    then decide_as refresh burst
    else if any (λ m. m.1) fetched
    then decide_as refresh reset
    else if leb refresh_every (length (new_since state.refresh_trigger_id fetched) + 1)
    then decide_as refresh threshold
    else decide_as keep none_given

-- `min(ids)` of a list that is not empty
unfoldable pub minimum : ℕ → List ℕ → ℕ
minimum x [] = x
minimum x (y ∷ ys) = minimum (min x y) ys

unfoldable pub oldest_included : List ℕ → ℕ → ℕ
unfolding minimum
oldest_included [] trigger_id = trigger_id
oldest_included (x ∷ xs) trigger_id = minimum x xs

unfoldable pub state_after_refresh : List ℕ → ℕ → AnchorState
unfolding oldest_included
state_after_refresh included_ids trigger_id = record {
  after_id = pred_ℤ (oldest_included included_ids trigger_id);
  refresh_trigger_id = trigger_id;
}

-- The store, over any type of keys with a decidable equality.
pub record HistoryStore {ℓ} (K : Type ℓ) : Type ℓ where
  pub max_channels : ℕ
  pub states : List (K × AnchorState)

module _ {K : Type 0} (dec : Discrete K) where
  unfoldable pub get : HistoryStore K → K → Option AnchorState × HistoryStore K
  get s key = elim (lookup dec key s.states) [
    | none ↦ (none, s)
    | some state ↦ (some state, record s { states = move_to_end dec key s.states })
  ]

  -- `self._states[key] = state`, `move_to_end` and the eviction loop
  unfoldable pub put_newest : HistoryStore K → K → AnchorState → HistoryStore K
  put_newest s key state = record s {
    states = evict s.max_channels (move_to_end dec key (set dec key state s.states));
  }

  unfoldable pub commit : HistoryStore K → K → AnchorState → Bool × HistoryStore K
  unfolding put_newest
  commit s key state = elim (lookup dec key s.states) [
    | none ↦ (true, put_newest s key state)
    | some current ↦
        if leb state.refresh_trigger_id current.refresh_trigger_id
        then (false, s)
        else (true, put_newest s key state)
  ]

abbrev pub clear {ℓ} : {K : Type ℓ} → HistoryStore K → HistoryStore K
clear s = record s { states = [] }

-- Chat entries: a text by its number of characters, or a list of parts.
pub data Part : Type 0 where
  input_image : Part
  input_text : ℕ → Part

pub data Content : Type 0 where
  text : ℕ → Content
  parts : List Part → Content

abbrev pub chars_per_token : ℕ
chars_per_token = 3

abbrev pub image_tokens : ℕ
image_tokens = 1500

abbrev pub message_overhead_tokens : ℕ
message_overhead_tokens = 8

-- `math.ceil(n / CHARS_PER_TOKEN)`
unfoldable pub text_tokens : ℕ → ℕ
text_tokens n = (n + 2) / chars_per_token

unfoldable pub part_tokens : Part → ℕ
unfolding text_tokens
part_tokens input_image = image_tokens
part_tokens (input_text n) = text_tokens n

unfoldable pub content_tokens : Content → ℕ
unfolding part_tokens
content_tokens (text n) = text_tokens n
content_tokens (parts ps) = sum (map part_tokens ps)

unfoldable pub estimate_tokens : List Content → ℕ
unfolding content_tokens
estimate_tokens entries = sum (map (λ c. message_overhead_tokens + content_tokens c) entries)

-- None and every capacity that is not positive mean "unknown".
unfoldable pub history_budget : Option ℤ → ℕ → Option ℕ
history_budget none reserve = none
history_budget (some (negsuc n)) reserve = none
history_budget (some (pos zero)) reserve = none
history_budget (some (pos (suc n))) reserve =
    if leb (suc n) reserve then some (suc n / 2) else some (suc n - reserve)

-- the `while` loop over the groups that are left; `total` still counts them
unfoldable pub drop_loop : ℕ → ℕ → List ℕ → ℕ → ℕ
drop_loop total budget [] drop = drop
drop_loop total budget (g ∷ groups) drop =
    let rest = drop_loop (total - g) budget groups (drop + 1) in
    if ltb budget total then rest else drop

unfoldable pub trim_count : List ℕ → ℕ → Option ℕ → ℕ
trim_count group_tokens fixed_tokens none = 0
trim_count group_tokens fixed_tokens (some budget) =
    drop_loop (fixed_tokens + sum group_tokens) budget group_tokens 0
