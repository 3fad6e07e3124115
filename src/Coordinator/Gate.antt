-- ===== src/Coordinator/Gate.antt =====
-- The gate before a tool of SandboxConversation: what it lets run, and how long it holds out.
use discord_chat_bot.Prelude.{◌≡◌, refl, true, false, some, List, [], ◌∷◌, ltb, leb, All, arith}
use discord_chat_bot.Text.{is_empty}
use discord_chat_bot.Ledger.{ThreadEvent, is_received, is_unaddressed, unacknowledged}
use discord_chat_bot.Coordinator.{
  Coordinator, is_acked, is_pressing, count_refusal, press, is_ignored, waits_for_answer,
  max_gate_refusals,
}

pub is_empty-nil {ℓ} : {A : Type ℓ} (xs : List A) → is_empty xs ≡ true → xs ≡ []
is_empty-nil [] h = refl
is_empty-nil (x ∷ xs) h = cc

-- nothing of the events is received and waits for the model
unfoldable pub AllSeen : List ThreadEvent → Type 0
AllSeen es = All (λ e. is_unaddressed e ≡ true → is_received e.stage ≡ false) es

-- an event that still waits was answered in the response that the gate is asked for
unfoldable pub Answered : Coordinator → ThreadEvent → Type 0
Answered c e = is_unaddressed e ≡ true → is_acked c e ≡ true

pub given_up-waits :
    (e : ThreadEvent) → is_unaddressed (record e { outcome = some unacknowledged }) ≡ false
unfolding is_unaddressed
given_up-waits e = ground arith

module _ (c : Coordinator) (e : ThreadEvent) where
  pub press-quiet : is_pressing c e ≡ false → press c e ≡ e
  unfolding press
  press-quiet h = rw h refl

  -- given up: pressing, and refused too often
  pub press-given_up :
      is_pressing c e ≡ true
      → is_ignored c e ≡ false
      → press c e ≡ record (count_refusal c e) { outcome = some unacknowledged }
  unfolding press is_ignored
  press-given_up p h =
      let over : leb (count_refusal c e).gate_refusals max_gate_refusals ≡ false = rw p at h in
      let over' : ltb max_gate_refusals (count_refusal c e).gate_refusals ≡ true = ground arith in
      rw (p, over') refl

  pub press-held : is_ignored c e ≡ true → press c e ≡ count_refusal c e
  unfolding press is_ignored
  press-held h = ground arith

-- What a tool that the gate lets run can rely on: no answer is waited for, the model has seen all
-- that waits, and has answered it in the response that asks for the tool.
unfoldable pub IsClear : Coordinator → Type 0
unfolding AllSeen Answered
IsClear c =
    (waits_for_answer c.ledger.question ≡ false)
    × AllSeen c.ledger.events
    × All (Answered c) c.ledger.events
