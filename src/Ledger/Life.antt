-- ===== src/Ledger/Life.antt =====
-- A run's ledger over its whole life: messages and the coordinator's transitions, in any order.
use discord_chat_bot.Prelude.{ℕ, Option, List, [], ◌∷◌, arith}
use discord_chat_bot.Ledger.{RunLedger, unaddressed}
use discord_chat_bot.Ledger.Intake.{Message, deliver, chars}
use discord_chat_bot.Ledger.Intake.Deliver.{IsValid, deliver-IsValid, new_event_fresh}
use discord_chat_bot.Ledger.Intake.Accept.{deliver-All}
use discord_chat_bot.Ledger.Stages.{Transition, transition}
use discord_chat_bot.Ledger.Stages.Valid.{transition-IsValid}
use discord_chat_bot.Ledger.Stages.Report.{Fits, IsHonest, transition-IsHonest}
use discord_chat_bot.Ledger.Runs.{new_ledger}

-- One step of a run: a message at a time, or a transition.
pub data Step : Type 0 where
  message : Message → ℕ → Step
  move : Transition → Step

unfoldable pub step : RunLedger → Step → RunLedger
step l (message m now) = (deliver l m now).1
step l (move t) = transition l t

unfoldable pub live : RunLedger → List Step → RunLedger
unfolding step
live l [] = l
live l (s ∷ ss) = live (step l s) ss

pub record IsSound (l : RunLedger) : Type 0 where
  pub valid : IsValid l
  pub honest : IsHonest l

step-IsSound : (l : RunLedger) (s : Step) → IsSound l → IsSound (step l s)
unfolding step
step-IsSound l (message m now) h = record {
  valid = deliver-IsValid l m now h.valid;
  honest =
      deliver-All (λ e. Fits e.stage e.outcome) l m now
        (rw ((new_event_fresh l m now).0, (new_event_fresh l m now).1) tt) h.honest;
}
step-IsSound l (move t) h = record {
  valid = transition-IsValid l t h.valid;
  honest = transition-IsHonest l t h.honest;
}

new_ledger-IsSound :
    (thread : ℕ) (requester owner : Option ℕ) → IsSound (new_ledger thread requester owner)
unfolding new_ledger unaddressed chars
new_ledger-IsSound thread requester owner = record {
  valid = record {
    numbered = omega arith;
    retained = omega arith;
    pending = omega arith;
    pending_chars = omega arith;
    late = omega arith;
    texts = tt;
    late_texts = tt;
  };
  honest = tt;
}

live_from : (l : RunLedger) (ss : List Step) → IsSound l → IsSound (live l ss)
unfolding live
live_from l [] h = h
live_from l (s ∷ ss) h = live_from (step l s) ss (step-IsSound l s h)

-- From its claim on, whatever messages arrive and whatever the coordinator does in between, a
-- run's ledger keeps its numbering, all its bounds, and the outcome of each event in step with
-- its stage.
pub live-IsSound :
    (thread : ℕ) (requester owner : Option ℕ) (ss : List Step)
    → IsSound (live (new_ledger thread requester owner) ss)
live-IsSound thread requester owner ss =
    live_from (new_ledger thread requester owner) ss (new_ledger-IsSound thread requester owner)
