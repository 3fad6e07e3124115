-- ===== src/Ledger/Intake/Accept.antt =====
-- When a message is accepted, and what an accepted message leaves in the ledger.
use discord_chat_bot.Prelude.{
  ℕ, suc, ◌+◌, ◌≤◌, ◌<◌, ◌≡◌, ◌≢◌, ◌↔◌, ◌⊎◌, inl, inr, refl, Bool, true, false, some, List, [], ◌∷◌,
  ◌++◌, length, all, any, filter, All, All-push, arith,
}
use discord_chat_bot.Text.{strip, is_empty}
use discord_chat_bot.Ledger.{
  RunState, setup, running, closed, Delivery, accepted, duplicate, no_run, finishing, ThreadEvent,
  RunLedger, same_id, is_unresolved, unaddressed, unresolved, max_pending_messages,
  max_pending_chars, max_message_chars, max_retained_events,
}
use discord_chat_bot.Ledger.Intake.{
  real_id, seen_message, Message, new_event, accept, chars, deliver_open, deliver_late,
  deliver_text, deliver,
}
use discord_chat_bot.Ledger.Intake.Compact.{compact_keeps, compact-All}
use discord_chat_bot.Ledger.Intake.Deliver.{
  deliver-rejected, numbered_event, grown, unresolved-accept, new_event_fresh,
}

abbrev pub takes_input : RunState → Bool
takes_input setup = true
takes_input running = true
takes_input _ = false

-- every guard of `deliver`, for a run that can still apply input
pub record Admits (l : RunLedger) (m : Message) : Type 0 where
  pub open_run : takes_input l.state ≡ true
  pub unseen : seen_message l (real_id m.message_id) ≡ false
  pub said : is_empty (strip m.text) ≡ false
  pub short : length (strip m.text) ≤ max_message_chars
  pub few : length (unaddressed l) < max_pending_messages
  pub room : chars (unaddressed l) + length (strip m.text) ≤ max_pending_chars
  pub record_room : (length l.events < max_retained_events) ⊎ (all is_unresolved l.events ≡ false)

module _ (l : RunLedger) (m : Message) (now : ℕ) where
  -- A message is accepted exactly when the run can still apply input, the message is new, has
  -- text that is not too long, and neither the waiting input nor the record is full.
  pub deliver-accepted : ((deliver l m now).0 ≡ accepted) ↔ Admits l m
  unfolding deliver deliver_text deliver_open deliver_late new_event
  deliver-accepted = (λ h. ground arith, λ h. ground arith)

  pub deliver-accept :
      (deliver l m now).0 ≡ accepted → (deliver l m now).1 ≡ accept l (new_event l m now)
  unfolding deliver deliver_text deliver_open deliver_late
  deliver-accept h = ground arith

  pub deliver_late_lem :
      (deliver l m now).0 ≡ finishing
      → (deliver l m now).1 ≡ record l { follow_ups = l.follow_ups ++ new_event l m now ∷ [] }
  unfolding deliver deliver_text deliver_open deliver_late
  deliver_late_lem h = ground arith

  -- Nothing that awaits an outcome is lost: after an accepted message the unresolved events are
  -- those of before, in order, and one more, which has the message's text and the next number.
  pub unresolved-deliver :
      (deliver l m now).0 ≡ accepted
      → (e : ThreadEvent) × (unresolved (deliver l m now).1 ≡ unresolved l ++ e ∷ [])
        × (e.text ≡ strip m.text)
        × (e.seq ≡ l.revision + 1)
        × (e.message_id ≡ real_id m.message_id)
  unfolding new_event
  unresolved-deliver h =
      let (fresh, mark, same) = new_event_fresh l m now in
      (
        numbered_event l (new_event l m now),
        rw (deliver-accept h) (unresolved-accept l (new_event l m now) fresh mark),
        refl,
        refl,
        refl,
      )

any-filter {ℓ} :
    {A : Type ℓ} (p q : A → Bool) (xs : List A) → any p (filter q xs) ≡ true → any p xs ≡ true
any-filter p q [] h = h
any-filter p q (x ∷ xs) h = ground (arith, any-filter p q xs)

any-push {ℓ} :
    {A : Type ℓ} (p : A → Bool) (xs : List A) (x : A) → p x ≡ true → any p (xs ++ x ∷ []) ≡ true
any-push p [] x h = ground arith
any-push p (y ∷ xs) x h = ground (arith, any-push p xs x h)

has_id : ℕ → ThreadEvent → Bool
has_id id e = same_id e.message_id (some id)

seen-duplicate :
    (l : RunLedger) (m : Message) (now id : ℕ)
    → m.message_id ≡ some (suc id)
    → l.state ≢ closed
    → (any (has_id (suc id)) l.events ≡ true) ⊎ (any (has_id (suc id)) l.follow_ups ≡ true)
    → (deliver l m now).0 ≡ duplicate
unfolding deliver seen_message has_id
seen-duplicate l m now id e c h = ground arith

module _ (l : RunLedger) (m : Message) (now id : ℕ) (real : m.message_id ≡ some (suc id)) where
  state_open : (deliver l m now).0 ≢ no_run → l.state ≢ closed
  unfolding deliver
  state_open h c = h (ground arith)

  event_id : (new_event l m now).message_id ≡ some (suc id)
  unfolding new_event
  event_id = ground arith

  accept_state : (e : ThreadEvent) → (accept l e).state ≡ l.state
  unfolding accept
  accept_state e = (compact_keeps (grown l e)).2

  accepted_has_id :
      (deliver l m now).0 ≡ accepted → any (has_id (suc id)) (deliver l m now).1.events ≡ true
  unfolding unresolved
  accepted_has_id h =
      let (e, grows, _, _, same) = unresolved-deliver l m now h in
      any-filter (has_id (suc id)) is_unresolved (deliver l m now).1.events
        (rw grows (any-push (has_id (suc id)) (unresolved l) e (shows e same)))
    where
      shows : (e : ThreadEvent) → e.message_id ≡ real_id m.message_id → has_id (suc id) e ≡ true
      shows e same = unfold has_id in ground arith

-- Discord may hand over one message twice: once a message with a real id is accepted or kept
-- for later, the same id is a duplicate, whatever else the second call says.
pub deliver-duplicate :
    (l : RunLedger) (m m' : Message) (now now' id : ℕ)
    → m.message_id ≡ some (suc id)
    → m'.message_id ≡ some (suc id)
    → ((deliver l m now).0 ≡ accepted) ⊎ ((deliver l m now).0 ≡ finishing)
    → (deliver (deliver l m now).1 m' now').0 ≡ duplicate
deliver-duplicate l m m' now now' id e e' (inl h) =
    seen-duplicate (deliver l m now).1 m' now' id e'
      (rw (deliver-accept l m now h, accept_state l m now id e (new_event l m now))
        (state_open l m now id e (λ c. cc)))
      (inl (accepted_has_id l m now id e h))
deliver-duplicate l m m' now now' id e e' (inr h) =
    seen-duplicate (deliver l m now).1 m' now' id e'
      (rw (deliver_late_lem l m now h) (state_open l m now id e (λ c. cc)))
      (inr (
        rw (deliver_late_lem l m now h) (
          any-push (has_id (suc id)) l.follow_ups (new_event l m now)
            (unfold has_id in ground (arith, event_id l m now id e)))))

Delivery-cases :
    (d : Delivery) → (d ≡ accepted) ⊎ ((d ≡ finishing) ⊎ ((d ≢ accepted) × (d ≢ finishing)))
Delivery-cases accepted = inl refl
Delivery-cases finishing = inr (inl refl)
Delivery-cases _ = inr (inr (λ e. cc, λ e. cc))

-- A property of every event of the record survives a delivery if the new event has it.
pub deliver-All :
    (P : ThreadEvent → Type 0) (l : RunLedger) (m : Message) (now : ℕ)
    → P (numbered_event l (new_event l m now))
    → All P l.events
    → All P (deliver l m now).1.events
unfolding accept
deliver-All P l m now p h = elim (Delivery-cases (deliver l m now).0) [
  | inl a ↦ rw (deliver-accept l m now a) (
      compact-All (grown l (new_event l m now)) P
        (All-push P l.events (numbered_event l (new_event l m now)) h p))
  | inr (inl f) ↦ rw (deliver_late_lem l m now f) h
  | inr (inr (a, f)) ↦ rw (deliver-rejected l m now a f) h
]
