-- ===== src/Entries.antt =====
-- core/classes/automation_store.py: the records of automations, what is queued for Redis, and Redis
-- as far as the store uses it.
use discord_chat_bot.Prelude.{
  ℕ, ◌≡◌, ◌≢◌, Bool, true, false, not, Option, none, some, List, [], ◌∷◌, ◌++◌, filter, ite, All,
}
use discord_chat_bot.Text.{Text, Text-discrete}
use discord_chat_bot.Schedule.{Timing, Failure}

pub data Kind : Type 0 where
  schedule rule : Kind

-- A record's status, or a text that is none.
pub data Status : Type 0 where
  enabled paused suspended deleted completed failed : Status
  unknown : Text → Status

-- One record of a server. A schedule has a timing and a zone, a rule a pattern and a mode; times
-- are in microseconds.
pub record Entry : Type 0 where
  pub ident : Text
  pub kind : Kind
  pub channel_id : ℕ
  pub creator_id : ℕ
  pub editor_id : ℕ
  pub action : Text
  pub status : Status
  pub revision : ℕ
  pub created_at : ℕ
  pub updated_at : ℕ
  pub last_result : Option (Text × Text × ℕ)
  pub timezone : Text
  pub timing : Timing
  pub next_run : ℕ
  pub followup : Bool
  pub context : Text
  pub pattern : Text
  pub match_mode : Text

-- The keyword arguments of `update`.
pub record Changes : Type 0 where
  pub action : Option Text
  pub status : Option Status
  pub timing : Option Timing
  pub timezone : Option Text
  pub pattern : Option Text
  pub match_mode : Option Text

-- What the pipelines queue: a record with the seconds it is kept for, the index, the times that
-- runs are due at, the times that finished records are removed at, and a person's last follow-up.
pub data Command : Type 0 where
  set_record : Entry → Option ℕ → Command
  enter_index : Kind → Text → ℕ → Command
  leave_index : Kind → Text → Command
  set_due : Text → ℕ → Command
  drop_due : Text → Command
  set_terminal : Text → ℕ → Command
  drop_terminal : Text → Command
  set_last_followup : ℕ → ℕ → Command

-- AutomationError, by its reason
pub data Refused : Type 0 where
  not_found stale finished followup_time unsupported invalid_status : Refused
  empty_action long_action long_pattern bad_pattern bad_timezone : Refused
  bad_schedule : Failure → Refused
  no_next_run disabled repeats no_action quota_full : Refused
  too_close : ℕ → Refused

pub data Outcome (A : Type 0) : Type 0 where
  refused : Refused → Outcome A
  wrote : A → List Command → Outcome A

abbrev pub is_record : Command → Bool
is_record (set_record e kept) = true
is_record _ = false

abbrev pub is_of_due : Command → Bool
is_of_due (set_due i at) = true
is_of_due (drop_due i) = true
is_of_due _ = false

abbrev pub is_of_index : Command → Bool
is_of_index (enter_index k i at) = true
is_of_index (leave_index k i) = true
is_of_index _ = false

abbrev pub is_text : Text → Text → Bool
is_text a b = ite (Text-discrete a b) true false

-- Redis under the store's keys: the records, the times that runs are due at and
-- the names in a kind's index, in their order, with the documented
-- effect of each command on them. That a record expires is not part of it.
pub record Database (S : Type 0) : Type 0 where
  pub entry : S → Text → Option Entry
  pub due : S → Text → Option ℕ
  pub index : S → Kind → List Text
  pub run : Command → S → S
  pub entry-set_record :
      (s : S) (e : Entry) (kept : Option ℕ) → entry (run (set_record e kept) s) e.ident ≡ some e
  pub entry-set_other :
      (s : S) (e : Entry) (kept : Option ℕ) (j : Text)
      → j ≢ e.ident
      → entry (run (set_record e kept) s) j ≡ entry s j
  pub entry-other :
      (s : S) (c : Command) (j : Text) → is_record c ≡ false → entry (run c s) j ≡ entry s j
  pub due-set_due : (s : S) (i : Text) (at : ℕ) → due (run (set_due i at) s) i ≡ some at
  pub due-set_other :
      (s : S) (i : Text) (at : ℕ) (j : Text) → j ≢ i → due (run (set_due i at) s) j ≡ due s j
  pub due-drop_due : (s : S) (i : Text) → due (run (drop_due i) s) i ≡ none
  pub due-drop_other : (s : S) (i : Text) (j : Text) → j ≢ i → due (run (drop_due i) s) j ≡ due s j
  pub due-other : (s : S) (c : Command) (j : Text) → is_of_due c ≡ false → due (run c s) j ≡ due s j
  -- a new name takes its place among the others
  pub index-enter :
      (s : S) (k : Kind) (i : Text) (at : ℕ)
      → All (λ j. j ≢ i) (index s k)
      → (xs : List Text) × (ys : List Text) × (index s k ≡ xs ++ ys)
        × (index (run (enter_index k i at) s) k ≡ xs ++ i ∷ ys)
  pub index-enter_other :
      (s : S) (k : Kind) (i : Text) (at : ℕ) (l : Kind)
      → l ≢ k
      → index (run (enter_index k i at) s) l ≡ index s l
  pub index-leave :
      (s : S) (k : Kind) (i : Text)
      → index (run (leave_index k i) s) k ≡ filter (λ j. not (is_text j i)) (index s k)
  pub index-leave_other :
      (s : S) (k : Kind) (i : Text) (l : Kind)
      → l ≢ k
      → index (run (leave_index k i) s) l ≡ index s l
  pub index-other :
      (s : S) (c : Command) (k : Kind) → is_of_index c ≡ false → index (run c s) k ≡ index s k

unfoldable pub run_all : {S : Type 0} → Database S → List Command → S → S
run_all db [] s = s
run_all db (c ∷ cs) s = run_all db cs (db.run c s)
