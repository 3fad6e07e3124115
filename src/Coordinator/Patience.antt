-- ===== src/Coordinator/Patience.antt =====
-- How long the gate of SandboxConversation holds out against a model that answers nothing.
use discord_chat_bot.Prelude.{
  ℕ, ◌+◌, ◌≤◌, ◌≡◌, Bool, true, false, Option, none, some, [], leb, map, All,
}
use discord_chat_bot.Ledger.{ThreadEvent, RunLedger, is_received, is_unaddressed}
use discord_chat_bot.Coordinator.{
  Coordinator, Refusal, on_model_response, press, waits_for_answer, gate,
}

abbrev pub is_by : Option ℕ → ℕ → Bool
is_by none m = true
is_by (some n) m = leb n m

-- An event that the model has seen, was not refused for after the response m, and, if it still
-- waits, was refused for k times or more.
unfoldable pub IsIgnoredFor : ℕ → ℕ → ThreadEvent → Type 0
IsIgnoredFor k m e =
    (is_received e.stage ≡ false)
    × (is_by e.last_refused_call m ≡ true)
    × (is_unaddressed e ≡ true → k ≤ e.gate_refusals)

-- The next response does nothing but ask for a gated tool.
unfoldable pub ignoring_round : Coordinator → ℕ → Option Refusal × Coordinator
unfolding gate on_model_response
ignoring_round c now = gate (on_model_response c [] now)

abbrev counted_at : ℕ → ThreadEvent → ThreadEvent
counted_at n e = record e { last_refused_call = some n; gate_refusals = e.gate_refusals + 1 }

-- A conversation that waits for no answer and has shown all that was said, after k responses that
-- ignored what waits.
pub record IsIgnoring (k : ℕ) (c : Coordinator) : Type 0 where
  pub no_question : waits_for_answer c.ledger.question ≡ false
  pub unstaged : c.staged ≡ none
  pub events : All (IsIgnoredFor k c.model_calls) c.ledger.events

abbrev silent : Coordinator → Coordinator
silent c = record c { staged = none; model_calls = c.model_calls + 1; batch_ack = [] }

abbrev pressed : Coordinator → RunLedger
pressed c = record c.ledger { events = map (press c) c.ledger.events }
