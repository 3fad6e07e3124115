-- ===== src/Records/Due.antt =====
-- The times that runs are due at, as the records stand.
use discord_chat_bot.Prelude.{
  ℕ, ◌≡◌, ◌≢◌, refl, sym, ap, subst, ◌∙◌, ◌&&◌, Option, none, some, List, [], ◌∷◌, if◌then◌else◌,
  All,
}
use discord_chat_bot.Text.{Text, Text-discrete}
use discord_chat_bot.Entries.{
  Entry, Command, set_record, enter_index, leave_index, drop_terminal, set_due, drop_due,
  set_terminal, set_last_followup, Database, run_all,
}
use discord_chat_bot.Records.{is_schedule, is_enabled}

-- when the record's next run is due
unfoldable pub due_of : Option Entry → Option ℕ
due_of none = none
due_of (some e) = if is_schedule e.kind && is_enabled e.status then some e.next_run else none

-- a command for the record with the name
unfoldable pub IsFor : Text → Command → Type 0
IsFor i (set_record e kept) = e.ident ≡ i
IsFor i (set_due j at) = j ≡ i
IsFor i (drop_due j) = j ≡ i
IsFor i _ = Unit

module _ {S : Type 0} (db : Database S) where
  -- the runs that are due are those of the enabled schedules
  unfoldable pub IsScheduled : S → Type 0
  IsScheduled s = (j : Text) → db.due s j ≡ due_of (db.entry s j)

  -- commands for one record leave the others alone
  pub run-elsewhere :
      (i : Text) (c : Command) (s : S) (j : Text)
      → IsFor i c
      → j ≢ i
      → (db.entry (db.run c s) j ≡ db.entry s j) × (db.due (db.run c s) j ≡ db.due s j)
  unfolding IsFor
  run-elsewhere i (set_record e kept) s j h n =
      (db.entry-set_other s e kept j (λ q. n (q ∙ h)), db.due-other s (set_record e kept) j refl)
  run-elsewhere i (set_due k at) s j h n =
      (db.entry-other s (set_due k at) j refl, db.due-set_other s k at j (λ q. n (q ∙ h)))
  run-elsewhere i (drop_due k) s j h n =
      (db.entry-other s (drop_due k) j refl, db.due-drop_other s k j (λ q. n (q ∙ h)))
  run-elsewhere i (leave_index k x) s j h n =
      (db.entry-other s (leave_index k x) j refl, db.due-other s (leave_index k x) j refl)
  run-elsewhere i (enter_index k x at) s j h n =
      (db.entry-other s (enter_index k x at) j refl, db.due-other s (enter_index k x at) j refl)
  run-elsewhere i (drop_terminal k) s j h n =
      (db.entry-other s (drop_terminal k) j refl, db.due-other s (drop_terminal k) j refl)
  run-elsewhere i (set_terminal k at) s j h n =
      (db.entry-other s (set_terminal k at) j refl, db.due-other s (set_terminal k at) j refl)
  run-elsewhere i (set_last_followup p at) s j h n = (
    db.entry-other s (set_last_followup p at) j refl,
    db.due-other s (set_last_followup p at) j refl,
  )

  pub run_all-elsewhere :
      (i : Text) (cs : List Command) (s : S) (j : Text)
      → All (IsFor i) cs
      → j ≢ i
      → (db.entry (run_all db cs s) j ≡ db.entry s j) × (db.due (run_all db cs s) j ≡ db.due s j)
  unfolding run_all
  run_all-elsewhere i [] s j h n = (refl, refl)
  run_all-elsewhere i (c ∷ cs) s j h n =
      let now = run-elsewhere i c s j h.0 n in
      let rest = run_all-elsewhere i cs (db.run c s) j h.1 n in (rest.0 ∙ now.0, rest.1 ∙ now.1)

  -- so they keep the due runs right if they do so at their own record
  pub due_runs_at :
      (i : Text) (cs : List Command) (s : S)
      → All (IsFor i) cs
      → IsScheduled s
      → db.due (run_all db cs s) i ≡ due_of (db.entry (run_all db cs s) i)
      → IsScheduled (run_all db cs s)
  unfolding IsScheduled
  due_runs_at i cs s h k at j = elim (Text-discrete j i) [
    | yes q ↦
        subst (λ j. db.due (run_all db cs s) j ≡ due_of (db.entry (run_all db cs s) j)) (sym q) at
    | no n ↦ let (e, d) = run_all-elsewhere i cs s j h n in d ∙ (k j ∙ ap due_of (sym e))
  ]
