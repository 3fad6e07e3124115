-- ===== src/Records/Ends.antt =====
-- core/classes/automation_store.py: `finish`, which records a run's end.
use discord_chat_bot.Prelude.{
  ℕ, ◌+◌, ◌*◌, Bool, ◌&&◌, Option, none, some, List, [], ◌∷◌, ◌==◌, if◌then◌else◌, take,
}
use discord_chat_bot.Text.{Text, codes}
use discord_chat_bot.Schedule.{Zone, Timing, once, Result, error, ok, following_run}
use discord_chat_bot.Entries.{
  is_text, Status, completed, failed, Entry, Command, set_record, drop_due, set_due, set_terminal,
  set_last_followup, bad_schedule, no_next_run, Outcome, refused, wrote,
}
use discord_chat_bot.Records.{week, or_old, is_enabled, is_schedule}

unfoldable pub noted : Entry → Text → Text → ℕ → Entry
noted e outcome detail now = record e { last_result = some (outcome, take 500 detail, now) }

-- whether the run that ended is the record's current one
unfoldable pub advances : Entry → Entry → Bool
advances current row = current.revision == row.revision && is_enabled current.status

abbrev pub followup_mark : Entry → List Command
followup_mark row = if row.followup then set_last_followup row.creator_id row.next_run ∷ [] else []

abbrev pub end_status : Text → Status
end_status outcome = if is_text outcome (codes "completed") then completed else failed

unfoldable pub finish_once : Entry → Entry → Text → ℕ → Outcome Entry
finish_once current row outcome now =
    let ended = record current { status = end_status outcome } in
    wrote ended (
      set_record ended (some week)
      ∷ drop_due row.ident
      ∷ set_terminal row.ident (now + week * 1_000_000)
      ∷ followup_mark row)

-- the record with its following run
abbrev pub follow : Entry → Entry → Result (Option ℕ) → Outcome Entry
follow current row (error f) = refused (bad_schedule f)
follow current row (ok none) = refused no_next_run
follow current row (ok (some at)) =
    wrote (record current { next_run = at })
      (set_record (record current { next_run = at }) none ∷ set_due row.ident at ∷ [])

module _ (zone_of : Text → Zone) (resolve_timezone : Text → Option Text) (min_hours : ℕ) where
  unfoldable pub finish_schedule : Timing → Entry → Entry → Text → Option ℕ → ℕ → Outcome Entry
  finish_schedule (once at) current row outcome started_at now = finish_once current row outcome now
  finish_schedule timing current row outcome started_at now = follow current row (
      following_run (zone_of row.timezone) timing row.next_run (or_old started_at now) now
        min_hours)

  -- `finish`, with the record of the run and the record that the key holds; a record that is gone
  -- is left alone
  unfoldable pub finish : Option Entry → Entry → Text → Text → Option ℕ → ℕ → Option (Outcome Entry)
  finish none row outcome detail started_at now = none
  finish (some e) row outcome detail started_at now =
      let current = noted e outcome detail now in
      some (
        if advances e row && is_schedule row.kind
        then finish_schedule row.timing current row outcome started_at now
        else wrote current (set_record current none ∷ []))
