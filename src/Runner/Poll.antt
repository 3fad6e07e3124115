-- ===== src/Runner/Poll.antt =====
-- core/classes/automation_runner.py: `poll_schedules` behind the check of its setting and
-- purge_terminal. What each turn of its loop meets is an argument, since
-- the other tasks run between them, but for the claims' keys, which the poll alone changes here.
use discord_chat_bot.Prelude.{
  ℕ, Bool, true, false, not, ◌||◌, ◌++◌, Option, none, some, List, [], ◌∷◌, if◌then◌else◌,
}
use discord_chat_bot.Text.{Text, codes}
use discord_chat_bot.Text.Number.{show}
use discord_chat_bot.Schedule.{Zone, Result, error, ok, validate_schedule}
use discord_chat_bot.Claims.{KeyStore, Row, Claim, busy_key, is_some, claim, cancel_claim}
use discord_chat_bot.Entries.{Entry}
use discord_chat_bot.Records.{is_enabled}
use discord_chat_bot.Records.Quota.{get_row, is_once}
use discord_chat_bot.Runner.{started_key}

pub record Job : Type 0 where
  pub row : Entry
  pub claim : Claim

-- One turn, for the name of a due run: its time in seconds and in microseconds, whether the queue is
-- full as it begins and as a job is put, whether the guild is in a call, what the record's key
-- holds, and the token that is drawn.
pub record Turn : Type 0 where
  pub ident : Text
  pub time : ℕ
  pub clock : ℕ
  pub is_full : Bool
  pub is_full_late : Bool
  pub in_voice : Bool
  pub stored : Option Entry
  pub token : Text

-- What is done to the records: a name is taken off the due runs, an update to "suspended" with its
-- outcome, and the outcome "interrupted".
pub data Note : Type 0 where
  unlisted : Text → Note
  suspends interrupts : Entry → Note

pub record Turned (S : Type 0) : Type 0 where
  pub goes_on : Bool
  pub keys : S
  pub jobs : List Job
  pub notes : List Note

abbrev pub passed : {S : Type 0} → S → List Note → Turned S
passed s notes = record { goes_on = true; keys = s; jobs = []; notes = notes }

abbrev pub stopped : {S : Type 0} → S → Turned S
stopped s = record { goes_on = false; keys = s; jobs = []; notes = [] }

abbrev pub is_ok : Result ℕ → Bool
is_ok (error f) = false
is_ok (ok at) = true

abbrev pub row_of : ℕ → Entry → Row
row_of guild e = record { kind = codes "schedule"; guild_id = guild; ident = e.ident }

abbrev pub joined : {S : Type 0} → Turned S → Turned S → Turned S
joined {S} r rest =
    if r.goes_on
    then record rest { jobs = r.jobs ++ rest.jobs; notes = r.notes ++ rest.notes }
    else r

module _ {S : Type 0} (store : KeyStore S) (guild min_hours : ℕ) (zone_of : Text → Zone) where
  -- a schedule that does not run once is checked again
  abbrev pub is_sound : Turn → Entry → Bool
  is_sound t row =
      is_once row.timing
      || is_ok (validate_schedule (zone_of row.timezone) row.timing min_hours t.clock)

  abbrev pub put_job : Turn → Entry → Option Claim × S → Turned S
  put_job t row (none, s) = passed s []
  put_job t row (some c, s) =
      if t.is_full_late
      then stopped (cancel_claim store t.time c false s)
      else record (passed s []) { jobs = record { row = row; claim = c } ∷ [] }

  abbrev pub turn_row : Turn → Option Entry → S → Turned S
  turn_row t none s = passed s (unlisted t.ident ∷ [])
  turn_row t (some row) s =
      if not (is_enabled row.status)
      then passed s (unlisted t.ident ∷ [])
      else if not (is_sound t row)
      then passed s (suspends row ∷ [])
      else if is_some (store.get t.time s (busy_key (row_of guild row)))
      then passed s []
      else if is_some (store.get t.time s (started_key guild row))
      then passed s (interrupts row ∷ [])
      else put_job t row (claim store t.time (row_of guild row) (show row.next_run) t.token 900 s)

  unfoldable pub turn : Turn → S → Turned S
  turn t s =
      if t.is_full
      then stopped s
      else if t.in_voice
      then passed s []
      else turn_row t (get_row t.stored) s

  unfoldable pub poll : List Turn → S → Turned S
  poll [] s = passed s []
  poll (t ∷ ts) s = joined (turn t s) (poll ts (turn t s).keys)
