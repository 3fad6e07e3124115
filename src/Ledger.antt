-- ===== src/Ledger.antt =====
-- core/classes/sandbox_thread_inbox.py: the ledger of what people say to a sandbox run, and the
-- registry of runs. Ids are Discord's numbers; `now` is the clock reading that a method takes.
-- `deliver` and the author's name are in Ledger/Intake, the transitions in Ledger/Stages, the
-- registry in Ledger/Runs; the proofs stand in the modules below those.
pub mod Intake
pub mod Stages
pub mod Runs
pub mod Life
use discord_chat_bot.Prelude.{
  ℕ, Bool, true, false, not, ◌&&◌, Option, none, some, List, [], ◌∷◌, ltb, ◌==◌, if◌then◌else◌, any,
  filter,
}
use discord_chat_bot.Text.{Text}

pub data Stage : Type 0 where
  received presented addressed resolved : Stage

-- The decisions that the model can record with `respond_to_updates`.
pub data Decision : Type 0 where
  will_apply done answered noted declined superseded deferred : Decision

-- A decision of the model's, or the mark for an event that it kept ignoring.
pub data Outcome : Type 0 where
  decided : Decision → Outcome
  unacknowledged : Outcome

pub data RunState : Type 0 where
  setup running finalizing closed : RunState

pub data Delivery : Type 0 where
  accepted duplicate no_run empty attachment_only too_long full finishing : Delivery

abbrev pub max_pending_messages : ℕ
max_pending_messages = 20

abbrev pub max_pending_chars : ℕ
max_pending_chars = 4000

abbrev pub max_message_chars : ℕ
max_message_chars = 1000

abbrev pub max_retained_events : ℕ
max_retained_events = 60

abbrev pub max_follow_ups : ℕ
max_follow_ups = 10

abbrev pub max_author_chars : ℕ
max_author_chars = 40

pub record ThreadEvent : Type 0 where
  pub seq : ℕ
  pub message_id : Option ℕ
  pub author_id : Option ℕ
  pub author_name : Text
  pub text : Text
  pub is_requester : Bool
  pub received_at : ℕ
  pub reply_to : Option ℕ
  pub has_attachments : Bool
  pub stage : Stage
  pub outcome : Option Outcome
  pub reply : Text
  pub anchor : Option ℕ
  pub presented_at : Option ℕ
  pub addressed_at : Option ℕ
  pub gate_refusals : ℕ
  pub last_refused_call : Option ℕ
  pub question_id : Option ℕ

pub record OpenQuestion : Type 0 where
  pub qid : ℕ
  pub text : Text
  pub blocking : Bool
  pub default : Text
  pub after_seq : ℕ
  pub asked_at : ℕ
  pub message_id : Option ℕ
  pub waiting : Bool
  pub timed_out : Bool

-- `owner` is a task; `changed` is the flag of the event that waiters clear.
pub record RunLedger : Type 0 where
  pub thread_id : ℕ
  pub requester_id : Option ℕ
  pub owner : Option ℕ
  pub state : RunState
  pub events : List ThreadEvent
  pub follow_ups : List ThreadEvent
  pub question : Option OpenQuestion
  pub revision : ℕ
  pub change_revision : ℕ
  pub busy_since : Option ℕ
  pub last_receipt_notice : ℕ
  pub compacted : ℕ
  pub next_qid : ℕ
  pub changed : Bool

-- Equality tests on the enumerations.
abbrev pub is_received : Stage → Bool
is_received received = true
is_received _ = false

abbrev pub is_resolved : Stage → Bool
is_resolved resolved = true
is_resolved _ = false

abbrev pub awaits_model : Stage → Bool
awaits_model received = true
awaits_model presented = true
awaits_model _ = false

abbrev pub is_unacknowledged : Option Outcome → Bool
is_unacknowledged (some unacknowledged) = true
is_unacknowledged _ = false

-- `a == b` on optional ids
abbrev pub same_id : Option ℕ → Option ℕ → Bool
same_id none none = true
same_id (some a) (some b) = a == b
same_id _ _ = false

unfoldable pub is_unaddressed : ThreadEvent → Bool
is_unaddressed e = awaits_model e.stage && not (is_unacknowledged e.outcome)

unfoldable pub is_unresolved : ThreadEvent → Bool
is_unresolved e = not (is_resolved e.stage)

unfoldable pub unpresented : RunLedger → List ThreadEvent
unpresented l = filter (λ e. is_received e.stage) l.events

unfoldable pub unaddressed : RunLedger → List ThreadEvent
unaddressed l = filter is_unaddressed l.events

unfoldable pub unresolved : RunLedger → List ThreadEvent
unresolved l = filter is_unresolved l.events

-- the first event with the number
unfoldable pub find_seq : ℕ → List ThreadEvent → Option ThreadEvent
find_seq n [] = none
find_seq n (e ∷ es) = if e.seq == n then some e else find_seq n es

unfoldable pub get : RunLedger → ℕ → Option ThreadEvent
unfolding find_seq
get l n = find_seq n l.events

unfoldable pub has_input_after : RunLedger → ℕ → Bool
has_input_after l n = any (λ e. ltb n e.seq) l.events
