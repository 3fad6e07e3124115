-- ===== src/Records/Lighter.antt =====
-- An update and a run's end leave a record no more active than it was.
use discord_chat_bot.Prelude.{
  All-append, ℕ, ◌≡◌, refl, subst, inl, inr, Bool, true, false, ◌&&◌, Option, none, some, List, [],
  ◌∷◌, ◌++◌, ◌+◌, ◌*◌, if◌then◌else◌, All, Bool-cases, arith,
}
use discord_chat_bot.Text.{Text}
use discord_chat_bot.Schedule.{Zone, Timing, once, interval, daily, weekly, Result, error, ok}
use discord_chat_bot.Entries.{
  completed, failed, Entry, Changes, Command, set_record, set_due, drop_due, set_terminal, Outcome,
  refused, wrote,
}
use discord_chat_bot.Records.{
  week, is_deleted, is_finished, is_schedule, is_enabled, or_old, refusal_before, update, writes,
  index_part, due_part, kept_for,
}
use discord_chat_bot.Records.Ends.{
  followup_mark, end_status, noted, advances, finish_once, follow, finish_schedule, finish,
}
use discord_chat_bot.Records.Due.{IsFor}
use discord_chat_bot.Records.Sound.{writes-IsFor, parts-quiet}
use discord_chat_bot.Records.Updates.{Keeps, update-Keeps}
use discord_chat_bot.Records.Finishes.{outcome_of}
use discord_chat_bot.Records.Creates.{or_refused-wrote}
use discord_chat_bot.Records.Limits.{enters}
use discord_chat_bot.Records.Rewritten.{
  IsLighter, IsLighter-over, IsLighter-same, Rewrites, update-IsLighter,
}

parts-enter_none : (e : Entry) → All (λ c. enters c ≡ false) (index_part e ++ due_part e)
unfolding index_part due_part
parts-enter_none e =
    All-append (λ c. enters c ≡ false) (index_part e) (due_part e)
      (elim (Bool-cases (is_deleted e.status)) [ inl d ↦ rw d (refl, tt) | inr d ↦ rw d tt ])
      (elim (Bool-cases (is_schedule e.kind)) [
        | inr r ↦ rw r tt
        | inl r ↦ elim (Bool-cases (is_enabled e.status)) [
          | inl n ↦ rw (r, n) (refl, tt)
          | inr n ↦ rw (r, n) (refl, tt)
        ]
      ])

marks-enter_none : (row : Entry) → All (λ c. enters c ≡ false) (followup_mark row)
marks-enter_none row = elim (Bool-cases row.followup) [ inl m ↦ rw m (refl, tt) | inr m ↦ rw m tt ]

-- the record that a run's end writes
unfoldable Ends : Entry → Outcome Entry → Type 0
Ends e (refused r) = Unit
Ends e (wrote e' cs) = Rewrites e e' cs

follow-Ends :
    (e current row : Entry) (o : Result (Option ℕ))
    → row.ident ≡ e.ident
    → current.ident ≡ e.ident
    → IsLighter current e
    → Ends e (follow current row o)
unfolding Ends Rewrites IsFor IsLighter
follow-Ends e current row (error f) r i l = tt
follow-Ends e current row (ok none) r i l = tt
follow-Ends e current row (ok (some at)) r i l =
    (none, set_due row.ident at ∷ [], refl, i, (refl, tt), (r, tt), (refl, tt), l)

over : (b : Bool) → is_finished (if b then completed else failed) ≡ true
over true = refl
over false = refl

finish_once-Ends :
    (e current row : Entry) (outcome : Text) (now : ℕ)
    → row.ident ≡ e.ident
    → current.ident ≡ e.ident
    → Ends e (finish_once current row outcome now)
unfolding Ends Rewrites IsFor finish_once
finish_once-Ends e current row outcome now r i = (
  some week,
  drop_due row.ident ∷ set_terminal row.ident (now + week * 1_000_000) ∷ followup_mark row,
  refl,
  i,
  (refl, (refl, elim (Bool-cases row.followup) [ inl m ↦ rw m (refl, tt) | inr m ↦ rw m tt ])),
  (r, (tt, elim (Bool-cases row.followup) [ inl m ↦ rw m (tt, tt) | inr m ↦ rw m tt ])),
  (refl, (refl, marks-enter_none row)),
  IsLighter-over (record current { status = end_status outcome }) e (inl (over _)),
)

-- the record of a run that is no longer the current one is noted alone
note-Ends :
    (e : Entry) (outcome detail : Text) (now : ℕ)
    → Ends e
        (wrote (noted e outcome detail now) (set_record (noted e outcome detail now) none ∷ []))
unfolding Ends Rewrites noted IsLighter
note-Ends e outcome detail now = (none, [], refl, refl, tt, tt, tt, λ q. omega arith)

if-Ends :
    (e : Entry) (b : Bool) (x y : Outcome Entry) → Ends e x → Ends e y → Ends e (if b then x else y)
if-Ends e true x y h k = h
if-Ends e false x y h k = k

module _ (zone_of : Text → Zone) (resolve_timezone : Text → Option Text) (min_hours : ℕ) where
  pub update-Rewrites :
      (e e' : Entry) (actor revision : ℕ) (ch : Changes) (now : ℕ) (cs : List Command)
      → update zone_of resolve_timezone min_hours (some e) actor revision ch now ≡ wrote e' cs
      → Rewrites e e' cs
  unfolding update Keeps Rewrites writes
  update-Rewrites e e' actor revision ch now cs h =
      let (same, i, k, f, st) =
        subst (Keeps e (or_old ch.status e.status)) h
          (update-Keeps zone_of resolve_timezone min_hours e actor revision ch now) in
      let (before, rest) = or_refused-wrote (refusal_before e ch revision) _ e' cs h in
      (
        kept_for e',
        index_part e' ++ due_part e',
        same,
        i,
        parts-quiet e',
        subst (λ j. All (IsFor j) (index_part e' ++ due_part e')) i (writes-IsFor e').1,
        parts-enter_none e',
        update-IsLighter e e' ch revision before f st,
      )

  finish_schedule-Ends :
      (t : Timing) (e current row : Entry) (outcome : Text) (started : Option ℕ) (now : ℕ)
      → row.ident ≡ e.ident
      → current.ident ≡ e.ident
      → IsLighter current e
      → Ends e
          (finish_schedule zone_of resolve_timezone min_hours t current row outcome started now)
  unfolding finish_schedule
  finish_schedule-Ends (once at) e current row outcome started now r i l =
      finish_once-Ends e current row outcome now r i
  finish_schedule-Ends (interval a b c) e current row outcome started now r i l =
      follow-Ends e current row _ r i l
  finish_schedule-Ends (daily a b) e current row outcome started now r i l =
      follow-Ends e current row _ r i l
  finish_schedule-Ends (weekly a b c) e current row outcome started now r i l =
      follow-Ends e current row _ r i l

  pub finish-Rewrites :
      (e row e' : Entry) (outcome detail : Text) (started : Option ℕ) (now : ℕ) (cs : List Command)
      → row.ident ≡ e.ident
      → finish zone_of resolve_timezone min_hours (some e) row outcome detail started now
        ≡ some (wrote e' cs)
      → Rewrites e e' cs
  unfolding finish Ends noted
  finish-Rewrites e row e' outcome detail started now cs r h =
      subst (λ o. Ends e (outcome_of o)) h
        (if-Ends e (advances e row && is_schedule row.kind) _ _
          (finish_schedule-Ends row.timing e (noted e outcome detail now) row outcome started now r
            refl (IsLighter-same (noted e outcome detail now) e refl refl))
          (note-Ends e outcome detail now))
