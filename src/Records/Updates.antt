-- ===== src/Records/Updates.antt =====
-- The due runs over the operations on records.
use discord_chat_bot.Prelude.{
  ℕ, ◌≡◌, refl, sym, subst, Bool, true, false, Option, none, some, List, if◌then◌else◌,
}
use discord_chat_bot.Text.{Text}
use discord_chat_bot.Schedule.{Zone, Result, error, ok}
use discord_chat_bot.Entries.{
  Status, Kind, schedule, rule, Entry, Changes, Command, Database, run_all, Refused, Outcome,
  refused, wrote,
}
use discord_chat_bot.Records.{
  is_enabled, writes, commit, can_match, stamped, changed, refusal_before, refusal_after, or_old,
  or_refused, scheduled, zone_given, change_in, checked, check_changed, update,
}
use discord_chat_bot.Records.Due.{IsScheduled}
use discord_chat_bot.Records.Sound.{entry-writes, writes-IsScheduled}

-- what an outcome writes for a record keeps its name and its kind, and gives it the status
unfoldable pub Keeps : Entry → Status → Outcome Entry → Type 0
Keeps e st (refused r) = Unit
Keeps e st (wrote e' cs) =
    (cs ≡ writes e')
    × (e'.ident ≡ e.ident)
    × (e'.kind ≡ e.kind)
    × (e'.followup ≡ e.followup)
    × (e'.status ≡ st)

if-Keeps :
    (e : Entry) (st : Status) (b : Bool) (x y : Outcome Entry)
    → Keeps e st x
    → Keeps e st y
    → Keeps e st (if b then x else y)
if-Keeps e st true x y h k = h
if-Keeps e st false x y h k = k

or_refused-Keeps :
    (e : Entry) (st : Status) (r : Option Refused) (x : Outcome Entry)
    → Keeps e st x
    → Keeps e st (or_refused r x)
unfolding Keeps
or_refused-Keeps e st none x h = h
or_refused-Keeps e st (some r) x h = tt

commit-Keeps : (e : Entry) (actor now : ℕ) → Keeps e e.status (commit e actor now)
unfolding Keeps stamped
commit-Keeps e actor now = (refl, refl, refl, refl, refl)

refused-Keeps : (e : Entry) (st : Status) (r : Refused) → Keeps e st (refused r)
unfolding Keeps
refused-Keeps e st r = tt

changed-Keeps :
    (e : Entry) (ch : Changes) (zone : Option Text) (now : ℕ) (o : Outcome Entry)
    → Keeps (changed e ch zone now) (changed e ch zone now).status o
    → Keeps e (or_old ch.status e.status) o
unfolding Keeps changed
changed-Keeps e ch resolved now (refused r) h = h
changed-Keeps e ch resolved now (wrote e' cs) h = h

module _ (zone_of : Text → Zone) (resolve_timezone : Text → Option Text) (min_hours : ℕ) where
  scheduled-Keeps :
      (e : Entry) (r : Result ℕ) (actor now : ℕ) → Keeps e e.status (scheduled e r actor now)
  unfolding Keeps stamped
  scheduled-Keeps e (error f) actor now = tt
  scheduled-Keeps e (ok at) actor now = (refl, refl, refl, refl, refl)

  checked-Keeps :
      (k : Kind) (e : Entry) (actor now : ℕ)
      → Keeps e e.status (checked zone_of resolve_timezone min_hours k e actor now)
  unfolding checked
  checked-Keeps schedule e actor now =
      if-Keeps e e.status (is_enabled e.status) _ _ (scheduled-Keeps e _ actor now)
        (commit-Keeps e actor now)
  checked-Keeps rule e actor now =
      if-Keeps e e.status (can_match e.pattern e.match_mode) _ _ (commit-Keeps e actor now)
        (refused-Keeps e _ _)

  check_changed-Keeps :
      (e : Entry) (actor now : ℕ)
      → Keeps e e.status (check_changed zone_of resolve_timezone min_hours e actor now)
  unfolding check_changed
  check_changed-Keeps e actor now =
      or_refused-Keeps e e.status (refusal_after e) _ (checked-Keeps e.kind e actor now)

  change_in-Keeps :
      (zone : Option (Option Text)) (e : Entry) (ch : Changes) (actor now : ℕ)
      → Keeps e
          (or_old ch.status e.status)
          (change_in zone_of resolve_timezone min_hours zone e ch actor now)
  change_in-Keeps none e ch actor now = refused-Keeps e _ _
  change_in-Keeps (some zone) e ch actor now =
      changed-Keeps e ch zone now _ (check_changed-Keeps (changed e ch zone now) actor now)

  pub update-Keeps :
      (e : Entry) (actor revision : ℕ) (ch : Changes) (now : ℕ)
      → Keeps e
          (or_old ch.status e.status)
          (update zone_of resolve_timezone min_hours (some e) actor revision ch now)
  unfolding update
  update-Keeps e actor revision ch now =
      or_refused-Keeps e _ (refusal_before e ch revision) _
        (change_in-Keeps (zone_given zone_of resolve_timezone min_hours ch.timezone) e ch actor now)

  -- An update of a record that is written keeps the due runs those of the enabled schedules.
  pub update-IsScheduled :
      {S : Type 0} (db : Database S) (s : S) (e e' : Entry) (actor revision : ℕ) (ch : Changes)
      (now : ℕ) (cs : List Command)
      → IsScheduled db s
      → db.entry s e.ident ≡ some e
      → update zone_of resolve_timezone min_hours (some e) actor revision ch now ≡ wrote e' cs
      → IsScheduled db (run_all db cs s) × (db.entry (run_all db cs s) e.ident ≡ some e')
  unfolding Keeps
  update-IsScheduled db s e e' actor revision ch now cs k q h =
      let kept =
        subst (Keeps e (or_old ch.status e.status)) h (update-Keeps e actor revision ch now) in
      let found : db.entry s e'.ident ≡ some e = rw kept.1 q in
      rw kept.0 (
        writes-IsScheduled db e' e s k found (sym kept.2),
        subst (λ j. db.entry (run_all db (writes e') s) j ≡ some e') kept.1 (entry-writes db e' s),
      )
