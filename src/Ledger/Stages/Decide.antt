-- ===== src/Ledger/Stages/Decide.antt =====
-- What `record_decision` and `mark_presented` do to each event, whatever numbers they are given.
use discord_chat_bot.Prelude.{
  ℕ, ◌≡◌, refl, ap, ◌∙◌, ◌⊎◌, Bool, true, false, Option, none, some, List, [], ◌∷◌, ◌==◌,
  if◌then◌else◌, any, filter, Bool-cases, Option-cases, inl, inr, arith,
}
use discord_chat_bot.Text.{Text}
use discord_chat_bot.Ledger.{Decision, ThreadEvent, RunLedger, is_received, find_seq, get}
use discord_chat_bot.Ledger.Stages.{
  put_event, decision_stage, decide, never_shown, decide_all, record_decision,
}
use discord_chat_bot.Ledger.Stages.Valid.{find_seq-seq}

abbrev pub mem : ℕ → List ℕ → Bool
mem n = any (λ m. m == n)

-- an event as the decision leaves it, if it is decided on
abbrev pub decided_event : Decision → Text → ℕ → Bool → Option ThreadEvent → Option ThreadEvent
decided_event d reply now false o = o
decided_event d reply now true none = none
decided_event d reply now true (some e) =
    if is_received e.stage then some e else some (decide e d reply now)

-- the event that is found once `new` has taken its place
abbrev replaced : Bool → ThreadEvent → Option ThreadEvent → Option ThreadEvent
replaced here new none = none
replaced here new (some e) = if here then some new else some e

find_seq-put_event :
    (new : ThreadEvent) (m : ℕ) (es : List ThreadEvent)
    → find_seq m (put_event new es) ≡ replaced (new.seq == m) new (find_seq m es)
unfolding find_seq put_event
find_seq-put_event new m [] = refl
find_seq-put_event new m (d ∷ es) = ground (arith, find_seq-put_event new m es)

decide_idem :
    (e : ThreadEvent) (d : Decision) (reply : Text) (now : ℕ)
    → decide (decide e d reply now) d reply now ≡ decide e d reply now
unfolding decide
decide_idem e d [] now = ground arith
decide_idem e d (c ∷ reply) now = refl

decide_stage :
    (e : ThreadEvent) (d : Decision) (reply : Text) (now : ℕ)
    → (is_received (decide e d reply now).stage ≡ false) × ((decide e d reply now).seq ≡ e.seq)
unfolding decide decision_stage
decide_stage e d reply now = ground arith

module _ (d : Decision) (reply : Text) (now : ℕ) where
  decide_all_skip :
      (n : ℕ) (ns : List ℕ) (es : List ThreadEvent)
      → never_shown es n ≡ true
      → ((decide_all (n ∷ ns) d reply now es).2 ≡ (decide_all ns d reply now es).2)
        × ((decide_all (n ∷ ns) d reply now es).1 ≡ n ∷ (decide_all ns d reply now es).1)
  unfolding decide_all never_shown
  decide_all_skip n ns es h = ground arith

  decide_all_apply :
      (n : ℕ) (ns : List ℕ) (es : List ThreadEvent) (e : ThreadEvent)
      → find_seq n es ≡ some e
      → is_received e.stage ≡ false
      → ((decide_all (n ∷ ns) d reply now es).2
          ≡ (decide_all ns d reply now (put_event (decide e d reply now) es)).2)
        × ((decide_all (n ∷ ns) d reply now es).1
            ≡ (decide_all ns d reply now (put_event (decide e d reply now) es)).1)
  unfolding decide_all
  decide_all_apply n ns es e f h = ground arith

  -- a number of which a first decision made nothing is left alone by a second
  decided_skip :
      (n m : ℕ) (ns : List ℕ) (es : List ThreadEvent)
      → never_shown es n ≡ true
      → decided_event d reply now (mem m ns) (find_seq m es)
        ≡ decided_event d reply now (mem m (n ∷ ns)) (find_seq m es)
  unfolding never_shown
  decided_skip n m ns es h = ground arith

  decided_apply :
      (n m : ℕ) (ns : List ℕ) (es : List ThreadEvent) (e : ThreadEvent)
      → find_seq n es ≡ some e
      → is_received e.stage ≡ false
      → decided_event d reply now (mem m ns) (find_seq m (put_event (decide e d reply now) es))
        ≡ decided_event d reply now (mem m (n ∷ ns)) (find_seq m es)
  decided_apply n m ns es e f h = ground (
    arith,
    find_seq-put_event (decide e d reply now) m es,
    decide_stage e d reply now,
    decide_idem e d reply now,
    find_seq-seq n es e f,
  )

  shown_cases :
      (n : ℕ) (es : List ThreadEvent)
      → (never_shown es n ≡ true)
        ⊎ ((e : ThreadEvent) × (find_seq n es ≡ some e) × (is_received e.stage ≡ false))
  unfolding never_shown
  shown_cases n es = elim (Option-cases (find_seq n es)) [
    | inl f ↦ inl (ground arith)
    | inr (e, f) ↦ elim (Bool-cases (is_received e.stage)) [
      | inl q ↦ inl (ground arith)
      | inr q ↦ inr (e, f, q)
    ]
  ]

  find_seq-decide_all :
      (ns : List ℕ) (es : List ThreadEvent) (m : ℕ)
      → find_seq m (decide_all ns d reply now es).2
        ≡ decided_event d reply now (mem m ns) (find_seq m es)
  find_seq-decide_all [] es m = unfold decide_all in refl
  find_seq-decide_all (n ∷ ns) es m = elim (shown_cases n es) [
    | inl h ↦
        rw (decide_all_skip n ns es h).0 (find_seq-decide_all ns es m ∙ decided_skip n m ns es h)
    | inr (e, f, q) ↦ rw (decide_all_apply n ns es e f q).0 (
        find_seq-decide_all ns (put_event (decide e d reply now) es) m
        ∙ decided_apply n m ns es e f q)
  ]

  never_shown-put_event :
      (n m : ℕ) (es : List ThreadEvent) (e : ThreadEvent)
      → find_seq n es ≡ some e
      → is_received e.stage ≡ false
      → never_shown (put_event (decide e d reply now) es) m ≡ never_shown es m
  unfolding never_shown
  never_shown-put_event n m es e f h = ground (
    arith,
    find_seq-put_event (decide e d reply now) m es,
    decide_stage e d reply now,
    find_seq-seq n es e f,
  )

  filter-same {ℓ} :
      {A : Type ℓ} (p q : A → Bool) (xs : List A)
      → ((a : A) → p a ≡ q a)
      → filter p xs ≡ filter q xs
  filter-same p q [] h = refl
  filter-same p q (x ∷ xs) h = ground (arith, h x, filter-same p q xs h)

  unknown-decide_all :
      (ns : List ℕ) (es : List ThreadEvent)
      → (decide_all ns d reply now es).1 ≡ filter (never_shown es) ns
  unknown-decide_all [] es = unfold decide_all in refl
  unknown-decide_all (n ∷ ns) es = elim (shown_cases n es) [
    | inl h ↦ rw ((decide_all_skip n ns es h).1, h) (ap (◌∷◌ n) (unknown-decide_all ns es))
    | inr (e, f, q) ↦
        rw ((decide_all_apply n ns es e f q).1, shown n es e f q)
          (unknown-decide_all ns (put_event (decide e d reply now) es)
            ∙ filter-same (never_shown (put_event (decide e d reply now) es)) (never_shown es) ns
                (λ m. never_shown-put_event n m es e f q))
  ]
    where
      shown :
          (n : ℕ) (es : List ThreadEvent) (e : ThreadEvent)
          → find_seq n es ≡ some e
          → is_received e.stage ≡ false
          → never_shown es n ≡ false
      shown n es e f q = unfold never_shown in ground arith

  -- A decision changes exactly the events that it names and that the model was shown: each gets
  -- the decision's stage and outcome. The numbers that it names in vain are reported back.
  pub record_decision_lem :
      (l : RunLedger) (ns : List ℕ) (m : ℕ)
      → (get (record_decision l ns d reply now).2 m
          ≡ decided_event d reply now (mem m ns) (get l m))
        × ((record_decision l ns d reply now).1 ≡ filter (never_shown l.events) ns)
  unfolding record_decision get
  record_decision_lem l ns m = (find_seq-decide_all ns l.events m, unknown-decide_all ns l.events)
