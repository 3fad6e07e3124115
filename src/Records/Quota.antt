-- ===== src/Records/Quota.antt =====
-- core/classes/automation_store.py: `get`, `list`, the quotas, `create` and `purge_terminal`. The
-- drawn name, what is read and the settings are arguments; times are in microseconds.
use discord_chat_bot.Prelude.{
  ℕ, ◌++◌, Bool, true, false, not, ◌&&◌, ◌||◌, Option, none, some, ◌⊎◌, inl, inr, List, [], ◌∷◌,
  ltb, leb, ◌==◌, if◌then◌else◌, length, take, map, filter,
}
use discord_chat_bot.Text.{Text, codes, is_empty, strip, or_else}
use discord_chat_bot.Schedule.{
  Zone, Timing, once, Result, error, ok, anchor_timing, validate_schedule, followup_conflict,
}
use discord_chat_bot.Entries.{
  Kind, schedule, rule, enabled, Entry, Command, set_record, enter_index, leave_index, set_due,
  drop_terminal, Refused, disabled, repeats, quota_full, no_action, long_action, long_pattern,
  bad_pattern, bad_timezone, bad_schedule, too_close, Outcome, refused, wrote,
}
use discord_chat_bot.Records.{
  is_deleted, is_finished, is_enabled, is_schedule, or_old, is_given, can_match, or_refused,
}

-- the settings that the store reads
pub record Settings : Type 0 where
  pub enabled : Bool
  pub timezone : Text
  pub min_hours : ℕ
  pub schedule_limit : ℕ
  pub followup_limit : ℕ
  pub rule_limit : ℕ

pub data Quota : Type 0 where
  schedules followups rules : Quota

abbrev pub quota_of : Kind → Bool → Quota
quota_of schedule true = followups
quota_of schedule false = schedules
quota_of rule followup = rules

-- the kind whose index holds what the quota counts
abbrev pub kind_of : Quota → Kind
kind_of rules = rule
kind_of _ = schedule

abbrev pub limit_of : Settings → Quota → ℕ
limit_of cfg schedules = cfg.schedule_limit
limit_of cfg followups = cfg.followup_limit
limit_of cfg rules = cfg.rule_limit

abbrev pub is_active : Entry → Bool
is_active e = not (is_finished e.status) && not (is_deleted e.status)

abbrev pub is_counted_by : Quota → Bool → Bool
is_counted_by followups followup = followup
is_counted_by _ followup = not followup

abbrev pub is_counted : Quota → Entry → Bool
is_counted q e = is_active e && is_counted_by q e.followup

-- `get` of what the key holds
unfoldable pub get_row : Option Entry → Option Entry
get_row none = none
get_row (some e) = if is_deleted e.status then none else some e

-- a row that the poll of schedules starts: it is there and enabled
abbrev pub is_startable : Option Entry → Bool
is_startable none = false
is_startable (some e) = is_enabled e.status

abbrev pub with_row : Option Entry → List Entry → List Entry
with_row none rows = rows
with_row (some e) rows = e ∷ rows

-- `list`, and `_rows` of the index's names
unfoldable pub rows_of : (Text → Option Entry) → List Text → List Entry
rows_of entry [] = []
rows_of entry (i ∷ ids) = with_row (get_row (entry i)) (rows_of entry ids)

unfoldable pub active_count : Quota → List Entry → ℕ
active_count q rows = length (filter (is_counted q) rows)

-- `check_quota` raises
unfoldable pub is_full : Settings → Quota → List Entry → Bool
is_full cfg q rows = leb (limit_of cfg q) (active_count q rows)

-- The arguments of `create`; a kind that is neither is none.
pub record Request : Type 0 where
  pub kind : Option Kind
  pub action : Text
  pub followup : Bool
  pub timing : Timing
  pub timezone : Text
  pub context : Text
  pub pattern : Text
  pub match_mode : Option Text

abbrev pub is_once : Timing → Bool
is_once (once at) = true
is_once _ = false

abbrev pub is_followup : Option Kind → Bool → Bool
is_followup (some schedule) followup = followup
is_followup _ followup = false

abbrev pub is_full_at : Settings → Option Kind → Bool → (Kind → List Entry) → Bool
is_full_at cfg none followup rows = false
is_full_at cfg (some k) followup rows = is_full cfg (quota_of k followup) (rows k)

-- the checks before the record is made, with the rows as they stand then
unfoldable pub refusal_first : Settings → Request → (Kind → List Entry) → Option Refused
refusal_first cfg r rows =
    let followup = is_followup r.kind r.followup in
    if not cfg.enabled
    then some disabled
    else if followup && not (is_once r.timing)
    then some repeats
    else if is_full_at cfg r.kind followup rows
    then some quota_full
    else if not (is_given r.kind) || is_empty (strip r.action)
    then some no_action
    else if ltb 1500 (length r.action)
    then some long_action
    else none

-- the record before what is its kind's own
unfoldable pub new_entry : Kind → Text → ℕ → ℕ → Request → ℕ → Entry
new_entry kind ident channel actor r now = record {
  ident = ident;
  kind = kind;
  channel_id = channel;
  creator_id = actor;
  editor_id = actor;
  action = strip r.action;
  status = enabled;
  revision = 1;
  created_at = now;
  updated_at = now;
  last_result = none;
  timezone = [];
  timing = r.timing;
  next_run = 0;
  followup = false;
  context = [];
  pattern = [];
  match_mode = [];
}

abbrev pub with_followup : Bool → Text → Entry → Entry
with_followup followup context e =
    if followup then record e { followup = true; context = take 500 (strip context) } else e

abbrev pub with_next_run : Entry → Bool → Text → Result ℕ → Refused ⊎ Entry
with_next_run e followup context (error f) = inl (bad_schedule f)
with_next_run e followup context (ok at) =
    inr (with_followup followup context (record e { next_run = at }))

-- the times of the same person's other follow-ups, and of the last one that ran
unfoldable pub others : ℕ → List Entry → Option ℕ → List ℕ
others actor rows last =
    map (λ (e : Entry). e.next_run)
      (filter (λ e. e.followup && (not (e.next_run == 0) && e.creator_id == actor)) rows)
    ++ elim last [ none ↦ [] | some at ↦ at ∷ [] ]

-- what is written for a new record
unfoldable pub creates : Entry → ℕ → List Command
creates e now =
    set_record e none
    ∷ enter_index e.kind e.ident now
    ∷ (if is_schedule e.kind then set_due e.ident e.next_run ∷ [] else [])

abbrev pub unless_close : Option ℕ → Outcome Entry → Outcome Entry
unless_close none o = o
unless_close (some clash) o = refused (too_close clash)

-- the transaction, in the attempt that commits
unfoldable pub admit : Settings → Entry → ℕ → List Entry → Option ℕ → Outcome Entry
admit cfg e now rows last =
    if is_full cfg (quota_of e.kind e.followup) rows
    then refused quota_full
    else if e.followup
    then unless_close (followup_conflict e.next_run (others e.creator_id rows last) cfg.min_hours)
        (wrote e (creates e now))
    else wrote e (creates e now)

abbrev pub admit_drafted :
    Settings → Refused ⊎ Entry → ℕ → (Kind → List Entry) → Option ℕ → Outcome Entry
admit_drafted cfg (inl r) now rows last = refused r
admit_drafted cfg (inr e) now rows last = admit cfg e now (rows e.kind) last

unfoldable pub purge_terminal : List Text → List Command
purge_terminal [] = []
purge_terminal (i ∷ members) = leave_index schedule i ∷ drop_terminal i ∷ purge_terminal members

module _ (zone_of : Text → Zone) (resolve_timezone : Text → Option Text) (cfg : Settings) where
  abbrev pub draft_in : Option Text → Entry → Bool → Request → ℕ → Refused ⊎ Entry
  draft_in none e followup r now = inl bad_timezone
  draft_in (some zone) e followup r now =
      let timing = anchor_timing r.timing now in
      with_next_run (record e { timezone = zone; timing = timing }) followup r.context
        (validate_schedule (zone_of zone) timing cfg.min_hours now)

  -- the record that is to be written
  unfoldable pub draft : Option Kind → Text → ℕ → ℕ → Request → ℕ → Refused ⊎ Entry
  draft none ident channel actor r now = inl no_action
  draft (some schedule) ident channel actor r now =
      draft_in (resolve_timezone (or_else r.timezone cfg.timezone))
        (new_entry schedule ident channel actor r now) r.followup r now
  draft (some rule) ident channel actor r now =
      let pattern = strip r.pattern in
      let mode = or_old r.match_mode (codes "word") in
      if ltb 200 (length pattern)
      then inl long_pattern
      else if can_match pattern mode
      then inr (record (new_entry rule ident channel actor r now) {
        pattern = pattern;
        match_mode = mode;
      })
      else inl bad_pattern

  -- `create`, with the rows at the first check, and those and the last follow-up in the transaction
  unfoldable pub create :
      Text
      → ℕ
      → ℕ
      → Request
      → ℕ
      → (Kind → List Entry)
      → (Kind → List Entry)
      → Option ℕ
      → Outcome Entry
  create ident channel actor r now early rows last =
      or_refused (refusal_first cfg r early)
        (admit_drafted cfg (draft r.kind ident channel actor r now) now rows last)
