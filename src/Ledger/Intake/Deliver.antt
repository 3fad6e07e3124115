-- ===== src/Ledger/Intake/Deliver.antt =====
-- What `deliver` does on every branch, and the invariant of the record.
use discord_chat_bot.Prelude.{
  ℕ, ◌+◌, ◌≤◌, ◌<◌, ◌≡◌, ◌≢◌, ◌⊎◌, inl, inr, refl, ap, ◌∙◌, Bool, true, false, not, ◌&&◌, none,
  List, [], ◌∷◌, ◌++◌, ltb, leb, length, all, filter, All, Bool-cases, All-push, length-append,
  filter-append, arith,
}
use discord_chat_bot.Text.{Text, strip, is_empty}
use discord_chat_bot.Ledger.{
  received, is_resolved, RunState, finalizing, Delivery, accepted, finishing, ThreadEvent,
  RunLedger, awaits_model, is_unacknowledged, is_unaddressed, is_unresolved, unaddressed,
  unresolved, max_pending_messages, max_pending_chars, max_message_chars, max_retained_events,
  max_follow_ups,
}
use discord_chat_bot.Ledger.Intake.{
  Message, new_event, candidate, accept, chars, deliver_open, deliver_late, deliver_text, deliver,
}
use discord_chat_bot.Ledger.Intake.Compact.{
  Numbered, Numbered-push, compact-Numbered, compact-All, filter-compact, length-compact,
  compact_keeps, resolved_pos,
}

-- A text that was taken in: not empty, and not too long.
abbrev pub HasText : ThreadEvent → Type 0
HasText e = (0 < length e.text) × (length e.text ≤ max_message_chars)

pub record IsValid (l : RunLedger) : Type 0 where
  pub numbered : Numbered 0 l.events l.revision
  pub retained : length l.events ≤ max_retained_events
  pub pending : length (unaddressed l) ≤ max_pending_messages
  pub pending_chars : chars (unaddressed l) ≤ max_pending_chars
  pub late : length l.follow_ups ≤ max_follow_ups
  pub texts : All HasText l.events
  pub late_texts : All HasText l.follow_ups

-- the event as `accept` numbers it, and the record before it is bounded
abbrev pub numbered_event : RunLedger → ThreadEvent → ThreadEvent
numbered_event l e = record e { seq = l.revision + 1; question_id = candidate l.question e }

abbrev pub grown : RunLedger → ThreadEvent → RunLedger
grown l e = record l { revision = l.revision + 1; events = l.events ++ numbered_event l e ∷ [] }

-- A message that is neither accepted nor kept for later leaves the ledger as it was.
pub deliver-rejected :
    (l : RunLedger) (m : Message) (now : ℕ)
    → (deliver l m now).0 ≢ accepted
    → (deliver l m now).0 ≢ finishing
    → (deliver l m now).1 ≡ l
unfolding deliver deliver_text deliver_open deliver_late
deliver-rejected l m now a f = ground arith

module _ (l : RunLedger) (e : ThreadEvent) where
  -- What a predicate selects that holds of no resolved event gains the new event alone.
  filter-accept :
      (p : ThreadEvent → Bool)
      → ((e : ThreadEvent) → is_resolved e.stage ≡ true → p e ≡ false)
      → p (numbered_event l e) ≡ true
      → filter p (accept l e).events ≡ filter p l.events ++ numbered_event l e ∷ []
  unfolding accept
  filter-accept p h t =
      filter-compact (grown l e) p h
      ∙ filter-append p l.events (numbered_event l e ∷ [])
      ∙ ap (λ r. filter p l.events ++ r) (ground arith)

  module _ (fresh : e.stage ≡ received) (mark : e.outcome ≡ none) where
    -- The unresolved events stay, all of them and in order, and the new one comes last.
    pub unresolved-accept : unresolved (accept l e) ≡ unresolved l ++ numbered_event l e ∷ []
    unfolding unresolved is_unresolved
    unresolved-accept =
        filter-accept (λ e. not (is_resolved e.stage)) (λ e h. ground arith) (ground arith)

    unaddressed-accept : unaddressed (accept l e) ≡ unaddressed l ++ numbered_event l e ∷ []
    unfolding unaddressed is_unaddressed
    unaddressed-accept =
        filter-accept (λ e. awaits_model e.stage && not (is_unacknowledged e.outcome))
          (λ e h. ground arith) (ground arith)

    chars-push :
        (es : List ThreadEvent) → chars (es ++ numbered_event l e ∷ []) ≡ chars es + length e.text
    unfolding chars
    chars-push [] = omega arith
    chars-push (x ∷ es) = omega (arith, chars-push es)

    accept-IsValid :
        IsValid l
        → HasText e
        → length (unaddressed l) < max_pending_messages
        → chars (unaddressed l) + length e.text ≤ max_pending_chars
        → (length l.events < max_retained_events) ⊎ (all is_unresolved l.events ≡ false)
        → IsValid (accept l e)
    unfolding accept
    accept-IsValid v t few short room = record {
      numbered = rw (compact_keeps (grown l e)).0 (
          compact-Numbered (grown l e)
            (Numbered-push 0 l.events l.revision (numbered_event l e) refl v.numbered));
      retained = length-compact (grown l e) (omega (arith, grows, v.retained)) holds_resolved;
      pending = omega (arith, ap length unaddressed-accept, length-append (unaddressed l) new);
      pending_chars = omega (arith, ap chars unaddressed-accept, chars-push (unaddressed l));
      late = omega (arith, ap length (compact_keeps (grown l e)).1, v.late);
      texts =
          compact-All (grown l e) HasText
            (All-push HasText l.events (numbered_event l e) v.texts t);
      late_texts = rw (compact_keeps (grown l e)).1 v.late_texts;
    }
      where
        new : List ThreadEvent
        new = numbered_event l e ∷ []

        grows : length (l.events ++ new) ≡ length l.events + 1
        grows = length-append l.events new

        holds_resolved :
            max_retained_events < length (l.events ++ new)
            → 0 < length (filter (λ x. is_resolved x.stage) (l.events ++ new))
        holds_resolved over = elim room [
          | inl short ↦ absurd (omega (arith, grows))
          | inr some_resolved ↦ omega (
            arith,
            ap length (filter-append (λ x. is_resolved x.stage) l.events new),
            length-append (filter (λ x. is_resolved x.stage) l.events)
                (filter (λ x. is_resolved x.stage) new),
            resolved_pos l.events some_resolved,
          )
        ]

pub new_event_fresh :
    (l : RunLedger) (m : Message) (now : ℕ)
    → ((new_event l m now).stage ≡ received)
      × ((new_event l m now).outcome ≡ none)
      × ((new_event l m now).text ≡ strip m.text)
unfolding new_event
new_event_fresh l m now = (refl, refl, refl)

length-ne-zero : (s : Text) → is_empty s ≡ false → 0 < length s
length-ne-zero [] h = cc
length-ne-zero (c ∷ s) h = omega arith

deliver_open-IsValid :
    (l : RunLedger) (e : ThreadEvent)
    → e.stage ≡ received
    → e.outcome ≡ none
    → HasText e
    → IsValid l
    → IsValid (deliver_open l e).1
unfolding deliver_open
deliver_open-IsValid l e fresh mark t v = ground (arith, accept-IsValid l e fresh mark v t)

deliver_late-IsValid :
    (l : RunLedger) (e : ThreadEvent) → HasText e → IsValid l → IsValid (deliver_late l e).1
unfolding deliver_late
deliver_late-IsValid l e t v = elim (Bool-cases (leb max_follow_ups (length l.follow_ups))) [
  | inl over ↦ rw over v
  | inr fits ↦ rw fits (record {
    numbered = v.numbered;
    retained = v.retained;
    pending = unfold unaddressed in v.pending;
    pending_chars = unfold unaddressed in v.pending_chars;
    late = ground (arith, length-append l.follow_ups (e ∷ []));
    texts = v.texts;
    late_texts = All-push HasText l.follow_ups e v.late_texts t;
  })
]

deliver_text-IsValid :
    (l : RunLedger) (m : Message) (now : ℕ) → IsValid l → IsValid (deliver_text l m now).1
unfolding deliver_text
deliver_text-IsValid l m now v = elim (Bool-cases (is_empty (strip m.text))) [
  | inl blank ↦ rw blank v
  | inr said ↦ elim (Bool-cases (ltb max_message_chars (length (strip m.text)))) [
    | inl long ↦ rw (said, long) v
    | inr short ↦
        let e = new_event l m now in
        let (fresh, mark, same) = new_event_fresh l m now in
        let t : HasText e = (
          omega (arith, ap length same, length-ne-zero (strip m.text) said),
          omega (arith, ap length same, leb_of_ltb short),
        ) in
        rw (said, short)
          (by_state l.state (deliver_open-IsValid l e fresh mark t v)
            (deliver_late-IsValid l e t v))
  ]
]
  where
    leb_of_ltb : {a b : ℕ} → ltb a b ≡ false → b ≤ a
    leb_of_ltb h = ground arith

    by_state :
        (s : RunState)
        → IsValid (deliver_open l (new_event l m now)).1
        → IsValid (deliver_late l (new_event l m now)).1
        → IsValid
            (elim s as (λ _. Delivery × RunLedger) [
              | finalizing ↦ deliver_late l (new_event l m now)
              | _ ↦ deliver_open l (new_event l m now)
            ]).1
    by_state finalizing o f = f
    by_state _ o f = o

-- Every message, whatever its result, leaves a valid record: numbered upwards, within its
-- bounds, and with no more than 20 messages and 4000 characters that await the model.
pub deliver-IsValid :
    (l : RunLedger) (m : Message) (now : ℕ) → IsValid l → IsValid (deliver l m now).1
unfolding deliver
deliver-IsValid l m now v = ground (arith, v, deliver_text-IsValid l m now v)
