-- ===== src/Coordinator/Waits.antt =====
-- A blocking `ask_user`: what holds as it begins to wait, and that its wait ends.
use discord_chat_bot.Prelude.{
  ℕ, ◌≡◌, inl, inr, refl, ap, subst, Bool, true, false, ◌||◌, Option, none, some, List, [], ◌∷◌,
  leb, ◌==◌, any, if◌then◌else◌, Bool-cases, Option-cases, arith,
}
use discord_chat_bot.Text.{Text, is_empty, strip}
use discord_chat_bot.Ledger.{OpenQuestion, RunLedger, has_input_after}
use discord_chat_bot.Ledger.Stages.{open_question}
use discord_chat_bot.Coordinator.{Coordinator, waiting_for_answer, gate, waits_for_answer}
use discord_chat_bot.Coordinator.Questions.{
  on_question, standing, Asked, told, waits, after_send, ask, question_text, end_wait, Wake,
  changed, expired, wait_for_input,
}

-- whether a sleep ends the wait: the deadline is there
abbrev pub is_late : ℕ → Wake → Bool
is_late deadline (changed l now) = leb deadline now
is_late deadline (expired l) = true

abbrev pub seen : Wake → RunLedger
seen (changed l now) = l
seen (expired l) = l

unfoldable pub IsHeard : ℕ → RunLedger → List Wake → Bool → Type 0
IsHeard n l wakes got =
    got ≡ true → (has_input_after l n || any (λ w. has_input_after (seen w) n) wakes) ≡ true

-- The wait ends by its deadline, and it reports a message only if a ledger that it saw had one.
pub wait_for_input-ends :
    (n deadline : ℕ) (l : RunLedger) (now : ℕ) (wakes : List Wake)
    → (leb deadline now || any (is_late deadline) wakes) ≡ true
    → (got : Bool) × (wait_for_input n deadline l now wakes ≡ some got) × IsHeard n l wakes got
unfolding wait_for_input IsHeard
wait_for_input-ends n deadline l now [] h = elim (Bool-cases (has_input_after l n)) [
  | inl i ↦ rw i (true, refl, λ _. refl)
  | inr i ↦ elim (Bool-cases (leb deadline now)) [
    | inl d ↦ rw (i, d) (false, refl, λ k. cc k)
    | inr d ↦ cc (rw d at h)
  ]
]
wait_for_input-ends n deadline l now (changed l' now' ∷ wakes) h =
    elim (Bool-cases (has_input_after l n)) [
      | inl i ↦ rw i (true, refl, λ _. refl)
      | inr i ↦ elim (Bool-cases (leb deadline now)) [
        | inl d ↦ rw (i, d) (false, refl, λ k. cc k)
        | inr d ↦
            let rest = wait_for_input-ends n deadline l' now' wakes (rw d at h) in
            rw (i, d) (rest.0, rest.1, rest.2)
      ]
    ]
wait_for_input-ends n deadline l now (expired l' ∷ wakes) h =
    elim (Bool-cases (has_input_after l n)) [
      | inl i ↦ rw i (true, refl, λ _. refl)
      | inr i ↦ elim (Bool-cases (leb deadline now)) [
        | inl d ↦ rw (i, d) (false, refl, λ k. cc k)
        | inr d ↦ rw (i, d) (has_input_after l' n, refl, λ k. rw k refl)
      ]
    ]

asked_question : (q : OpenQuestion) (m : Option ℕ) → Option OpenQuestion
asked_question q m = some (record q { message_id = m; waiting = true })

on_question_lem :
    (q : OpenQuestion) (f : OpenQuestion → OpenQuestion) (c : Coordinator)
    → c.ledger.question ≡ some q
    → on_question q.qid f c ≡ record c { ledger = record c.ledger { question = some (f q) } }
unfolding on_question
on_question_lem q f c h = rw h (ground arith)

gate-waiting :
    (c : Coordinator)
    → waits_for_answer c.ledger.question ≡ true
    → (gate c).0 ≡ some waiting_for_answer
unfolding gate
gate-waiting c h = rw h refl

abbrev state_of : Asked → Coordinator
state_of (told text c) = c
state_of (waits q c) = c

module _ (q : OpenQuestion) (m : Option ℕ) (c : Coordinator) where
  abbrev sent_question : OpenQuestion
  sent_question = record q { message_id = m }

  abbrev sent_state : Coordinator
  sent_state = on_question q.qid (λ q. record q { message_id = m }) c

  sent_state-gates :
      c.ledger.question ≡ some q
      → q.blocking ≡ true
      → (gate (on_question q.qid (λ q. record q { waiting = true }) sent_state)).0
        ≡ some waiting_for_answer
  sent_state-gates h b =
      let sent = on_question_lem q (λ q. record q { message_id = m }) c h in
      let waiting =
        on_question_lem sent_question (λ q. record q { waiting = true }) sent_state
          (ap (λ c. c.ledger.question) sent) in
      gate-waiting _ (rw (waiting, b) refl)

after_send-gates :
    (sent : Option (Option ℕ)) (q : OpenQuestion) (blocking : Bool) (default : Text)
    (c : Coordinator) (q' : OpenQuestion) (c' : Coordinator)
    → c.ledger.question ≡ some q
    → q.blocking ≡ blocking
    → after_send sent q blocking default c ≡ waits q' c'
    → (gate c').0 ≡ some waiting_for_answer
unfolding after_send
after_send-gates none q blocking default c q' c' h b k = cc k
after_send-gates (some m) q false default c q' c' h b k = cc k
after_send-gates (some m) q true default c q' c' h b k =
    subst (λ c. (gate c).0 ≡ some waiting_for_answer) (ap state_of k) (sent_state-gates q m c h b)

-- As a blocking question starts to wait, the gate lets no tool run, if the question is still the
-- ledger's after it was sent.
pub ask-gates :
    (repr : Text → Text) (send : Text → Option (Option ℕ)) (meanwhile : Coordinator → Coordinator)
    (c : Coordinator) (question : Text) (blocking : Bool) (choices : List Text) (default : Text)
    (now : ℕ) (q : OpenQuestion) (c' : Coordinator)
    → (meanwhile (record c {
      ledger = (open_question c.ledger (strip question) blocking default now).1;
    })).ledger.question
      ≡ some (open_question c.ledger (strip question) blocking default now).0
    → ask repr (some send) meanwhile c question blocking choices default now ≡ waits q c'
    → (gate c').0 ≡ some waiting_for_answer
unfolding ask open_question
ask-gates repr send meanwhile c question blocking choices default now q c' stands h =
    elim (Option-cases (standing c.ledger.question)) [
      | inr (s, e) ↦ elim (Bool-cases (is_empty (strip question))) [
        | inl t ↦ cc (rw (ask, e, t) at h)
        | inr t ↦ cc (rw (ask, e, t) at h)
      ]
      | inl e ↦ elim (Bool-cases (is_empty (strip question))) [
        | inl t ↦ cc (rw (ask, e, t) at h)
        | inr t ↦
            let (opened, l) = open_question c.ledger (strip question) blocking default now in
            after_send-gates (send (question_text (strip question) blocking choices default)) opened
              blocking default (meanwhile (record c { ledger = l })) q c' stands refl
              (rw (ask, e, t) at h)
      ]
    ]

-- Once the wait is over its question holds no tool back, and after a wait in vain another question
-- may be asked.
pub end_wait-frees :
    (q p : OpenQuestion) (got : Bool) (timeout : ℕ) (c : Coordinator)
    → c.ledger.question ≡ some p
    → p.qid ≡ q.qid
    → (waits_for_answer (end_wait q got timeout c).1.ledger.question ≡ false)
      × (standing (end_wait q got timeout c).1.ledger.question
          ≡ (if got then standing (some (record p { waiting = false })) else none))
unfolding end_wait on_question
end_wait-frees q p true timeout c h k =
    let same : (p.qid == q.qid) ≡ true = ground arith in rw (h, same) (ground arith, refl)
end_wait-frees q p false timeout c h k =
    let same : (p.qid == q.qid) ≡ true = ground arith in rw (h, same, same) (ground arith, refl)
