-- ===== src/Records.antt =====
-- core/classes/automation_store.py: how a record of an automation changes, and what is written. A
-- pipeline that commits is one step; its commands are data, which a `Database` runs. The zones, the
-- reading of a zone's name and the settings are arguments.
pub mod Ends
pub mod Due
pub mod Sound
pub mod Updates
pub mod Finishes
pub mod Quota
pub mod Limits
pub mod Apart
pub mod Creates
pub mod Enters
pub mod Rewritten
pub mod Lighter
pub mod Life
use discord_chat_bot.Prelude.{
  ℕ, ◌+◌, ◌≡◌, ◌≢◌, Bool, true, false, not, ◌&&◌, ◌||◌, Option, none, some, List, [], ◌∷◌, ◌++◌,
  ltb, ◌==◌, if◌then◌else◌, ite, length,
}
use discord_chat_bot.Text.{Text, codes, is_empty, strip, split, Text-discrete}
use discord_chat_bot.Entries.{
  Kind, schedule, rule, Status, enabled, paused, suspended, deleted, completed, failed, unknown,
  Entry, Changes, Command, set_record, leave_index, set_due, drop_due, set_terminal,
  set_last_followup, Refused, not_found, stale, finished, followup_time, unsupported,
  invalid_status, empty_action, long_action, long_pattern, bad_pattern, bad_timezone, bad_schedule,
  no_next_run, Outcome, refused, wrote, is_text,
}
use discord_chat_bot.Schedule.{
  Zone, Timing, Failure, Result, error, ok, anchor_timing, validate_schedule,
}

abbrev pub week : ℕ
week = 604800

abbrev pub is_given {ℓ} : {A : Type ℓ} → Option A → Bool
is_given none = false
is_given (some a) = true

abbrev pub or_old {ℓ} : {A : Type ℓ} → Option A → A → A
or_old none a = a
or_old (some b) a = b

abbrev pub is_deleted : Status → Bool
is_deleted deleted = true
is_deleted _ = false

abbrev pub is_enabled : Status → Bool
is_enabled enabled = true
is_enabled _ = false

abbrev pub is_finished : Status → Bool
is_finished completed = true
is_finished failed = true
is_finished _ = false

abbrev pub is_settable : Status → Bool
is_settable enabled = true
is_settable paused = true
is_settable deleted = true
is_settable suspended = true
is_settable _ = false

abbrev pub is_schedule : Kind → Bool
is_schedule schedule = true
is_schedule rule = false

abbrev pub gives_deleted : Option Status → Bool
gives_deleted (some deleted) = true
gives_deleted _ = false

-- `changes == {"status": "deleted"}`
unfoldable pub only_deletes : Changes → Bool
only_deletes ch =
    gives_deleted ch.status
    && not (
        is_given ch.action
        || (is_given ch.timing
            || (is_given ch.timezone || (is_given ch.pattern || is_given ch.match_mode))))

-- a key that records of the kind do not take
unfoldable pub is_unsupported : Kind → Changes → Bool
is_unsupported schedule ch = is_given ch.pattern || is_given ch.match_mode
is_unsupported rule ch = is_given ch.timing || is_given ch.timezone

-- `matches(pattern, "", mode)` raises nothing
unfoldable pub can_match : Text → Text → Bool
can_match pattern mode =
    not (is_empty (split pattern))
    && (is_text mode (codes "substring") || is_text mode (codes "word"))

abbrev pub anchored : Option Timing → ℕ → Option Timing
anchored none now = none
anchored (some t) now = some (anchor_timing t now)

unfoldable pub changed : Entry → Changes → Option Text → ℕ → Entry
changed e ch zone now = record e {
  action = or_old ch.action e.action;
  status = or_old ch.status e.status;
  timing = or_old (anchored ch.timing now) e.timing;
  timezone = or_old zone e.timezone;
  pattern = or_old ch.pattern e.pattern;
  match_mode = or_old ch.match_mode e.match_mode;
}

-- the checks before the record is changed
unfoldable pub refusal_before : Entry → Changes → ℕ → Option Refused
refusal_before e ch revision =
    if not (e.revision == revision)
    then some stale
    else if is_deleted e.status
    then some not_found
    else if is_finished e.status && not (only_deletes ch)
    then some finished
    else if e.followup && (is_given ch.timing || is_given ch.timezone)
    then some followup_time
    else if is_unsupported e.kind ch
    then some unsupported
    else none

-- the checks of the changed record
unfoldable pub refusal_after : Entry → Option Refused
refusal_after e =
    if not (is_settable e.status)
    then some invalid_status
    else if is_empty (strip e.action)
    then some empty_action
    else if ltb 1500 (length e.action)
    then some long_action
    else if not (is_schedule e.kind) && ltb 200 (length e.pattern)
    then some long_pattern
    else none

-- what is written for a record: it is kept for a week once it is deleted, and an enabled schedule
-- is due at its next run
abbrev pub kept_for : Entry → Option ℕ
kept_for e = if is_deleted e.status then some week else none

unfoldable pub index_part : Entry → List Command
index_part e = if is_deleted e.status then leave_index e.kind e.ident ∷ [] else []

unfoldable pub due_part : Entry → List Command
due_part e =
    if is_schedule e.kind
    then if is_enabled e.status then set_due e.ident e.next_run ∷ [] else drop_due e.ident ∷ []
    else []

unfoldable pub writes : Entry → List Command
writes e = set_record e (kept_for e) ∷ (index_part e ++ due_part e)

unfoldable pub stamped : Entry → ℕ → ℕ → Entry
stamped e actor now = record e { revision = e.revision + 1; editor_id = actor; updated_at = now }

abbrev pub or_refused : Option Refused → Outcome Entry → Outcome Entry
or_refused none o = o
or_refused (some r) o = refused r

abbrev pub commit : Entry → ℕ → ℕ → Outcome Entry
commit e actor now = wrote (stamped e actor now) (writes (stamped e actor now))

-- the commit of an enabled schedule, at the next run that was found
abbrev pub scheduled : Entry → Result ℕ → ℕ → ℕ → Outcome Entry
scheduled e (error f) actor now = refused (bad_schedule f)
scheduled e (ok at) actor now = commit (record e { next_run = at }) actor now

module _ (zone_of : Text → Zone) (resolve_timezone : Text → Option Text) (min_hours : ℕ) where
  -- the next run of an enabled schedule, the check of a rule's pattern, and the commit
  unfoldable pub checked : Kind → Entry → ℕ → ℕ → Outcome Entry
  checked schedule e actor now =
      if is_enabled e.status
      then scheduled e (validate_schedule (zone_of e.timezone) e.timing min_hours now) actor now
      else commit e actor now
  checked rule e actor now =
      if can_match e.pattern e.match_mode then commit e actor now else refused bad_pattern

  unfoldable pub check_changed : Entry → ℕ → ℕ → Outcome Entry
  check_changed e actor now = or_refused (refusal_after e) (checked e.kind e actor now)

  -- the zone of the changes: none if its name is not known
  abbrev pub zone_given : Option Text → Option (Option Text)
  zone_given none = some none
  zone_given (some name) = elim (resolve_timezone name) [
    | none ↦ none
    | some zone ↦ some (some zone)
  ]

  abbrev pub change_in : Option (Option Text) → Entry → Changes → ℕ → ℕ → Outcome Entry
  change_in none e ch actor now = refused bad_timezone
  change_in (some zone) e ch actor now = check_changed (changed e ch zone now) actor now

  -- `update` of the record that the key holds, in the attempt that commits
  unfoldable pub update : Option Entry → ℕ → ℕ → Changes → ℕ → Outcome Entry
  update none actor revision ch now = refused not_found
  update (some e) actor revision ch now =
      or_refused (refusal_before e ch revision) (change_in (zone_given ch.timezone) e ch actor now)
