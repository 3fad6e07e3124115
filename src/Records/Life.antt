-- ===== src/Records/Life.antt =====
-- The store over any sequence of its operations.
use discord_chat_bot.Prelude.{
  ℕ, ◌≡◌, ◌≢◌, refl, sym, ap, ◌∙◌, false, Option, none, some, List, [], ◌∷◌, All, subst, arith,
}
use discord_chat_bot.Text.{Text}
use discord_chat_bot.Schedule.{Zone}
use discord_chat_bot.Entries.{
  Kind, schedule, Entry, Changes, Command, leave_index, drop_due, drop_terminal, is_record,
  is_of_due, wrote, Database, run_all,
}
use discord_chat_bot.Records.{update}
use discord_chat_bot.Records.Ends.{finish}
use discord_chat_bot.Records.Due.{due_of, IsScheduled, IsFor, due_runs_at}
use discord_chat_bot.Records.Updates.{update-IsScheduled}
use discord_chat_bot.Records.Finishes.{finish-IsScheduled}
use discord_chat_bot.Records.Quota.{
  Settings, Request, get_row, is_startable, rows_of, create, purge_terminal,
}
use discord_chat_bot.Records.Limits.{IsWithin, enters, weight, run_all-IsWithin}
use discord_chat_bot.Records.Creates.{create-IsAdmitted}
use discord_chat_bot.Records.Enters.{creates-IsScheduled, creates-IsWithin}
use discord_chat_bot.Records.Rewritten.{Rewrites-IsWithin}
use discord_chat_bot.Records.Lighter.{update-Rewrites, finish-Rewrites}

module _ {S : Type 0} (db : Database S) (zone_of : Text → Zone)
    (resolve_timezone : Text → Option Text) (cfg : Settings) where
  -- One operation of the store that is committed. A new record's name, which is drawn at random, is
  -- one that is not in use.
  pub data Step (s : S) : S → Type 0 where
    created :
        (ident : Text) (channel actor : ℕ) (r : Request) (now : ℕ) (early : Kind → List Entry)
        (last : Option ℕ) (e : Entry) (cs : List Command)
        → create zone_of resolve_timezone cfg ident channel actor r now early
            (λ k. rows_of (db.entry s) (db.index s k))
            last
          ≡ wrote e cs
        → db.entry s e.ident ≡ none
        → ((k : Kind) → All (λ j. j ≢ e.ident) (db.index s k))
        → Step s (run_all db cs s)
    updated :
        (e : Entry) (actor revision : ℕ) (ch : Changes) (now : ℕ) (e' : Entry) (cs : List Command)
        → db.entry s e.ident ≡ some e
        → update zone_of resolve_timezone cfg.min_hours (some e) actor revision ch now ≡ wrote e' cs
        → Step s (run_all db cs s)
    finished :
        (e row : Entry) (outcome detail : Text) (started : Option ℕ) (now : ℕ) (e' : Entry)
        (cs : List Command)
        → db.entry s e.ident ≡ some e
        → row.ident ≡ e.ident
        → row.kind ≡ e.kind
        → finish zone_of resolve_timezone cfg.min_hours (some e) row outcome detail started now
          ≡ some (wrote e' cs)
        → Step s (run_all db cs s)
    purged : (members : List Text) → Step s (run_all db (purge_terminal members) s)
    -- The poll takes a run off. It has read its record some steps before.
    dropped : (i : Text) → Step s (db.run (drop_due i) s)

  pub data Reach (s : S) : S → Type 0 where
    here : Reach s s
    next : {t u : S} → Reach s t → Step t u → Reach s u

  -- the poll does not take a run off whose record is enabled by now
  abbrev pub IsTimely : {s t : S} → Step s t → Type 0
  IsTimely {s} (dropped i) = is_startable (get_row (db.entry s i)) ≡ false
  IsTimely _ = Unit

  unfoldable pub AreTimely : {s t : S} → Reach s t → Type 0
  AreTimely here = Unit
  AreTimely (next r st) = AreTimely r × IsTimely st

  -- The runs that are due are those of the enabled schedules, and no quota is exceeded.
  pub record IsSound (s : S) : Type 0 where
    pub scheduled : IsScheduled db s
    pub within : IsWithin db cfg s

  -- a command that leaves the records alone and enters no name
  quiet-IsWithin :
      (i : Text) (c : Command) (s : S)
      → IsFor i c
      → is_record c ≡ false
      → enters c ≡ false
      → IsWithin db cfg s
      → IsWithin db cfg (db.run c s)
  unfolding run_all
  quiet-IsWithin i c s f r n w =
      run_all-IsWithin db cfg i (c ∷ []) s (f, tt) (n, tt)
        (λ q. omega (arith, ap (weight q) (db.entry-other s c i r))) w

  quiet-IsSound :
      (i : Text) (c : Command) (s : S)
      → IsFor i c
      → is_record c ≡ false
      → is_of_due c ≡ false
      → enters c ≡ false
      → IsSound s
      → IsSound (db.run c s)
  unfolding IsScheduled
  quiet-IsSound i c s f r d n k = record {
    scheduled =
        λ j. db.due-other s c j d ∙ (k.scheduled j ∙ ap due_of (sym (db.entry-other s c j r)));
    within = quiet-IsWithin i c s f r n k.within;
  }

  purge-IsSound :
      (members : List Text) (s : S) → IsSound s → IsSound (run_all db (purge_terminal members) s)
  unfolding purge_terminal run_all IsFor
  purge-IsSound [] s h = h
  purge-IsSound (i ∷ members) s h =
      let left = quiet-IsSound i (leave_index schedule i) s tt refl refl refl h in
      purge-IsSound members _ (quiet-IsSound i (drop_terminal i) _ tt refl refl refl left)

  not_due : (o : Option Entry) → is_startable (get_row o) ≡ false → due_of o ≡ none
  unfolding due_of get_row
  not_due none h = refl
  not_due (some e) h = ground arith

  dropped-IsSound :
      (i : Text) (s : S)
      → is_startable (get_row (db.entry s i)) ≡ false
      → IsSound s
      → IsSound (db.run (drop_due i) s)
  unfolding run_all IsFor
  dropped-IsSound i s h k = record {
    scheduled =
        due_runs_at db i (drop_due i ∷ []) s (refl, tt) k.scheduled
          (db.due-drop_due s i
            ∙ sym (ap due_of (db.entry-other s (drop_due i) i refl) ∙ not_due (db.entry s i) h));
    within = quiet-IsWithin i (drop_due i) s refl refl refl k.within;
  }

  Step-IsSound : {s t : S} (st : Step s t) → IsTimely st → IsSound s → IsSound t
  Step-IsSound {s} (created ident channel actor r now early last e cs h new fresh) _ k =
      let (up, (same, room, apart)) =
        create-IsAdmitted zone_of resolve_timezone cfg ident channel actor r now early
          (λ k. rows_of (db.entry s) (db.index s k)) last e cs h in
      subst (λ cs. IsSound (run_all db cs s)) (sym same)
        (record {
          scheduled = creates-IsScheduled db e now s k.scheduled up new;
          within = creates-IsWithin db e now s fresh cfg room k.within;
        })
  Step-IsSound {s} (updated e actor revision ch now e' cs found h) _ k = record {
    scheduled =
        (update-IsScheduled zone_of resolve_timezone cfg.min_hours db s e e' actor revision ch now
          cs k.scheduled found h).0;
    within =
        Rewrites-IsWithin db cfg s e e' cs found
          (update-Rewrites zone_of resolve_timezone cfg.min_hours e e' actor revision ch now cs h)
          k.within;
  }
  Step-IsSound {s} (finished e row outcome detail started now e' cs found i l h) _ k = record {
    scheduled =
        finish-IsScheduled db e row s zone_of resolve_timezone cfg.min_hours outcome detail started
          now e' cs k.scheduled found i l h;
    within =
        Rewrites-IsWithin db cfg s e e' cs found
          (finish-Rewrites zone_of resolve_timezone cfg.min_hours e row e' outcome detail started
            now cs i h)
          k.within;
  }
  Step-IsSound {s} (purged members) _ k = purge-IsSound members s k
  Step-IsSound {s} (dropped i) h k = dropped-IsSound i s h k

  -- From a store whose due runs are those of the enabled schedules and whose quotas are kept, any
  -- sequence of its operations, new records under unused names, leads to one of which both hold,
  -- provided that no record which the poll has read as not enabled, so as to take its run off, is
  -- enabled again by the time that the run is taken off.
  pub Reach-IsSound : {s t : S} → IsSound s → (r : Reach s t) → AreTimely r → IsSound t
  unfolding AreTimely
  Reach-IsSound h here _ = h
  Reach-IsSound h (next r st) a = Step-IsSound st a.1 (Reach-IsSound h r a.0)
