-- ===== src/Ledger/Runs.antt =====
-- The registry of runs of sandbox_thread_inbox.py: claim_run, release_run, get_run and the
-- module's `deliver`. A ledger is a shared object, so the registry holds references into a store
-- of ledgers; two references are one object exactly if they are the same number.
pub mod Claims
pub mod Kept
use discord_chat_bot.Prelude.{
  ℕ, ◌+◌, Bool, true, false, Option, none, some, List, [], ◌==◌, if◌then◌else◌, lookup, ℕ_discrete,
}
use discord_chat_bot.Dict.{remove, set}
use discord_chat_bot.Ledger.{setup, closed, Delivery, no_run, RunLedger}
use discord_chat_bot.Ledger.Intake.{Message}
use discord_chat_bot.Ledger.Intake

-- `done` says which tasks have finished; `fresh` is a reference that no ledger has yet.
pub record World : Type 0 where
  pub runs : List (ℕ × ℕ)
  pub ledger : ℕ → RunLedger
  pub fresh : ℕ

abbrev pub update : (ℕ → RunLedger) → ℕ → RunLedger → ℕ → RunLedger
update f r l q = if r == q then l else f q

unfoldable pub new_ledger : ℕ → Option ℕ → Option ℕ → RunLedger
new_ledger thread_id requester_id owner = record {
  thread_id = thread_id;
  requester_id = requester_id;
  owner = owner;
  state = setup;
  events = [];
  follow_ups = [];
  question = none;
  revision = 0;
  change_revision = 0;
  busy_since = none;
  last_receipt_notice = 0;
  compacted = 0;
  next_qid = 1;
  changed = false;
}

-- `ledger.state = CLOSED; del _RUNS[thread_id]`
unfoldable pub drop_run : World → ℕ → ℕ → World
drop_run w thread r = record w {
  runs = remove ℕ_discrete thread w.runs;
  ledger = update w.ledger r (record (w.ledger r) { state = closed });
}

unfoldable pub owner_done : (ℕ → Bool) → Option ℕ → Bool
owner_done finished none = false
owner_done finished (some task) = finished task

module _ (finished : ℕ → Bool) where
  unfoldable pub get_run : World → ℕ → Option ℕ × World
  unfolding drop_run owner_done
  get_run w thread = elim (lookup ℕ_discrete thread w.runs) [
    | none ↦ (none, w)
    | some r ↦
        if owner_done finished (w.ledger r).owner then (none, drop_run w thread r) else (some r, w)
  ]

  -- `owner` is the current task, which makes the claim
  unfoldable pub claim_run : World → ℕ → Option ℕ → Option ℕ → Option ℕ × World
  unfolding get_run new_ledger
  claim_run w thread requester_id owner =
      let (found, w') = get_run w thread in
      elim found [
        | some r ↦ (none, w')
        | none ↦ (
          some w'.fresh,
          record w' {
            runs = set ℕ_discrete thread w'.fresh w'.runs;
            ledger = update w'.ledger w'.fresh (new_ledger thread requester_id owner);
            fresh = w'.fresh + 1;
          },
        )
      ]

  unfoldable pub is_run_active : World → ℕ → Bool × World
  unfolding get_run
  is_run_active w thread =
      let (found, w') = get_run w thread in (elim found [ none ↦ false | some r ↦ true ], w')

  unfoldable pub deliver : World → ℕ → Message → ℕ → Delivery × World
  unfolding get_run
  deliver w thread m now =
      let (found, w') = get_run w thread in
      elim found [
        | none ↦ (no_run, w')
        | some r ↦
            let (result, l) = Intake.deliver (w'.ledger r) m now in
            (result, record w' { ledger = update w'.ledger r l })
      ]

unfoldable pub release_run : World → ℕ → ℕ → Bool × World
unfolding drop_run
release_run w thread r = elim (lookup ℕ_discrete thread w.runs) [
  | none ↦ (false, w)
  | some held ↦ if held == r then (true, drop_run w thread r) else (false, w)
]
