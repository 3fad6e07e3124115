-- ===== src/Records/Finishes.antt =====
-- The due runs after a run's end.
use discord_chat_bot.Prelude.{
  ℕ, ◌≡◌, inl, inr, refl, sym, ap, subst, ◌∙◌, Bool, true, false, ◌&&◌, Option, none, some, List,
  [], ◌∷◌, if◌then◌else◌, All, Bool-cases, and-true,
}
use discord_chat_bot.Text.{codes, Text}
use discord_chat_bot.Schedule.{Zone, Timing, once, interval, daily, weekly, Result, error, ok}
use discord_chat_bot.Entries.{
  is_text, Kind, schedule, rule, Entry, Command, set_record, set_due, drop_due, set_terminal,
  Database, run_all, Outcome, refused, wrote, not_found, completed, failed, is_record, is_of_due,
}
use discord_chat_bot.Records.{week, is_schedule, is_enabled}
use discord_chat_bot.Records.Ends.{
  follow, followup_mark, end_status, noted, advances, finish_once, finish_schedule, finish,
}
use discord_chat_bot.Records.Due.{due_of, IsScheduled, IsFor, due_runs_at}
use discord_chat_bot.Records.Sound.{entry-kept, due-kept}

one_of : (b : Bool) → is_enabled (if b then completed else failed) ≡ false
one_of true = refl
one_of false = refl

is_schedule-kind : (k : Kind) → is_schedule k ≡ true → k ≡ schedule
is_schedule-kind schedule h = refl
is_schedule-kind rule h = cc h

advances-enabled : (e row : Entry) → advances e row ≡ true → is_enabled e.status ≡ true
unfolding advances
advances-enabled e row h = (and-true _ _ h).1

-- the outcome that there is
abbrev pub outcome_of : Option (Outcome Entry) → Outcome Entry
outcome_of none = refused not_found
outcome_of (some o) = o

module _ {S : Type 0} (db : Database S) (e row : Entry) (s : S) where
  -- the commands of a run's end are for its record
  finished_at :
      (e' : Entry) (kept : Option ℕ) (cs : List Command)
      → row.ident ≡ e.ident
      → e'.ident ≡ e.ident
      → All (IsFor e.ident) cs
      → All (λ c. is_record c ≡ false) cs
      → IsScheduled db s
      → db.due (run_all db (set_record e' kept ∷ cs) s) e.ident ≡ due_of (some e')
      → IsScheduled db (run_all db (set_record e' kept ∷ cs) s)
  unfolding run_all IsFor
  finished_at e' kept cs r i f n k d =
      due_runs_at db e.ident (set_record e' kept ∷ cs) s (i, f) k (d ∙ ap due_of (sym stored))
    where
      stored : db.entry (run_all db cs (db.run (set_record e' kept) s)) e.ident ≡ some e'
      stored =
          entry-kept db cs (db.run (set_record e' kept) s) e.ident n
          ∙ subst (λ j. db.entry (db.run (set_record e' kept) s) j ≡ some e') i
              (db.entry-set_record s e' kept)

  module _ (k : IsScheduled db s) (q : db.entry s e.ident ≡ some e) (r : row.ident ≡ e.ident) where
    noted-IsScheduled :
        (outcome detail : Text) (now : ℕ)
        → IsScheduled db (run_all db (set_record (noted e outcome detail now) none ∷ []) s)
    unfolding run_all IsScheduled due_of noted
    noted-IsScheduled outcome detail now =
        finished_at (noted e outcome detail now) none [] r refl tt tt k (
          db.due-other s (set_record (noted e outcome detail now) none) e.ident refl
          ∙ (k e.ident ∙ rw q refl))

    marks : All (IsFor e.ident) (followup_mark row)
    unfolding IsFor
    marks = elim (Bool-cases row.followup) [ inl m ↦ rw m (tt, tt) | inr m ↦ rw m tt ]

    quiet : All (λ c. is_record c ≡ false) (followup_mark row)
    quiet = elim (Bool-cases row.followup) [ inl m ↦ rw m (refl, tt) | inr m ↦ rw m tt ]

    not_due : All (λ c. is_of_due c ≡ false) (followup_mark row)
    not_due = elim (Bool-cases row.followup) [ inl m ↦ rw m (refl, tt) | inr m ↦ rw m tt ]

    once-IsScheduled :
        (e' : Entry) (at : ℕ)
        → e'.ident ≡ e.ident
        → is_enabled e'.status ≡ false
        → IsScheduled db (
            run_all db
              (set_record e' (some week)
                ∷ drop_due row.ident
                ∷ set_terminal row.ident at
                ∷ followup_mark row)
              s)
    unfolding run_all IsFor due_of
    once-IsScheduled e' at i n =
        finished_at e' (some week)
          (drop_due row.ident ∷ set_terminal row.ident at ∷ followup_mark row) r i (r, (tt, marks))
          (refl, (refl, quiet)) k
          (due-kept db (followup_mark row) s₃ e.ident not_due
            ∙ (db.due-other s₂ (set_terminal row.ident at) e.ident refl
                ∙ (subst (λ j. db.due s₂ j ≡ none) r (db.due-drop_due s₁ row.ident) ∙ not_enabled)))
      where
        s₁ : S
        s₁ = db.run (set_record e' (some week)) s

        s₂ : S
        s₂ = db.run (drop_due row.ident) s₁

        s₃ : S
        s₃ = db.run (set_terminal row.ident at) s₂

        not_enabled : none ≡ due_of (some e')
        not_enabled = elim (Bool-cases (is_schedule e'.kind)) [
          | inl b ↦ rw (b, n) refl
          | inr b ↦ rw b refl
        ]

    follow-IsScheduled :
        (at : ℕ) (current : Entry)
        → current.ident ≡ e.ident
        → current.kind ≡ schedule
        → is_enabled current.status ≡ true
        → IsScheduled db (
            run_all db
              (set_record (record current { next_run = at }) none ∷ set_due row.ident at ∷ [])
              s)
    unfolding run_all IsFor due_of
    follow-IsScheduled at current i c n =
        finished_at (record current { next_run = at }) none (set_due row.ident at ∷ []) r i (r, tt)
          (refl, tt) k
          (subst (λ j. db.due (db.run (set_due row.ident at) s₁) j ≡ some at) r
              (db.due-set_due s₁ row.ident at)
            ∙ rw (c, n) refl)
      where
        s₁ : S
        s₁ = db.run (set_record (record current { next_run = at }) none) s

    -- what an outcome writes keeps the due runs right
    unfoldable IsGood : Outcome Entry → Type 0
    IsGood (refused x) = Unit
    IsGood (wrote e' cs) = IsScheduled db (run_all db cs s)

    if-IsGood :
        (b : Bool) (x y : Outcome Entry)
        → (b ≡ true → IsGood x)
        → IsGood y
        → IsGood (if b then x else y)
    if-IsGood true x y f g = f refl
    if-IsGood false x y f g = g

    follow-IsGood :
        (o : Result (Option ℕ)) (current : Entry)
        → current.ident ≡ e.ident
        → current.kind ≡ schedule
        → is_enabled current.status ≡ true
        → IsGood (follow current row o)
    unfolding IsGood
    follow-IsGood (error f) current i c n = tt
    follow-IsGood (ok none) current i c n = tt
    follow-IsGood (ok (some at)) current i c n = follow-IsScheduled at current i c n

    ended : (outcome : Text) → is_enabled (end_status outcome) ≡ false
    ended outcome = one_of (is_text outcome (codes "completed"))

    finish_schedule-IsGood :
        (zone_of : Text → Zone) (resolve_timezone : Text → Option Text) (min_hours : ℕ) (t : Timing)
        (current : Entry) (outcome : Text) (started : Option ℕ) (now : ℕ)
        → current.ident ≡ e.ident
        → current.kind ≡ schedule
        → is_enabled current.status ≡ true
        → IsGood
            (finish_schedule zone_of resolve_timezone min_hours t current row outcome started now)
    unfolding finish_schedule finish_once IsGood
    finish_schedule-IsGood zone_of rt mh (once at) current outcome started now i c n =
        once-IsScheduled _ _ i (ended outcome)
    finish_schedule-IsGood zone_of rt mh (interval a b d) current outcome started now i c n =
        follow-IsGood _ current i c n
    finish_schedule-IsGood zone_of rt mh (daily a b) current outcome started now i c n =
        follow-IsGood _ current i c n
    finish_schedule-IsGood zone_of rt mh (weekly a b d) current outcome started now i c n =
        follow-IsGood _ current i c n

  -- A run's end keeps the due runs those of the enabled schedules.
  pub finish-IsScheduled :
      (zone_of : Text → Zone) (resolve_timezone : Text → Option Text) (min_hours : ℕ)
      (outcome detail : Text) (started : Option ℕ) (now : ℕ) (e' : Entry) (cs : List Command)
      → IsScheduled db s
      → db.entry s e.ident ≡ some e
      → row.ident ≡ e.ident
      → row.kind ≡ e.kind
      → finish zone_of resolve_timezone min_hours (some e) row outcome detail started now
        ≡ some (wrote e' cs)
      → IsScheduled db (run_all db cs s)
  unfolding finish IsGood noted
  finish-IsScheduled zone_of rt mh outcome detail started now e' cs k q r c h =
      subst (λ o. IsGood k q r (outcome_of o)) h
        (if-IsGood k q r (advances e row && is_schedule row.kind) _ _
          (λ b.
            let (a, t) = and-true _ _ b in
            finish_schedule-IsGood k q r zone_of rt mh row.timing (noted e outcome detail now)
              outcome started now refl (sym c ∙ is_schedule-kind row.kind t)
              (advances-enabled e row a))
          (noted-IsScheduled k q r outcome detail now))
