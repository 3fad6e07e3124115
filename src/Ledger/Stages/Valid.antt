-- ===== src/Ledger/Stages/Valid.antt =====
-- The transitions of RunLedger, and the validity of its record.
use discord_chat_bot.Prelude.{
  ℕ, ◌≤◌, ◌≡◌, inl, inr, refl, ◌∙◌, true, some, List, [], ◌∷◌, ◌==◌, length, filter, All,
  Bool-cases, Option-cases, arith,
}
use mathlib.Core.Path.{subst}
use discord_chat_bot.Text.{Text}
use discord_chat_bot.Ledger.{
  Decision, unacknowledged, ThreadEvent, RunLedger, is_received, is_unaddressed, unaddressed,
  find_seq,
}
use discord_chat_bot.Ledger.Intake.{chars}
use discord_chat_bot.Ledger.Intake.Compact.{Numbered}
use discord_chat_bot.Ledger.Intake.Deliver.{HasText, IsValid}
use discord_chat_bot.Ledger.Stages.{
  put_event, present, present_all, mark_presented, decision_stage, decide, decide_all,
  record_decision, give_up_on, give_up_at, Transition, mark, record_as, give_up, ask, close, finish,
  transition, open_question, close_question, finalize,
}

pub find_seq-seq :
    (n : ℕ) (es : List ThreadEvent) (e : ThreadEvent) → find_seq n es ≡ some e → e.seq ≡ n
unfolding find_seq
find_seq-seq n [] e h = cc
find_seq-seq n (d ∷ es) e h = ground (arith, find_seq-seq n es e)

-- `new` takes the place of `old`: the same number and text, and no new claim on the model
pub record Replaces (new old : ThreadEvent) : Type 0 where
  pub seq : new.seq ≡ old.seq
  pub text : new.text ≡ old.text
  pub settles : is_unaddressed new ≡ true → is_unaddressed old ≡ true

module _ (new old : ThreadEvent) (r : Replaces new old) where
  put_event-Numbered :
      (lo : ℕ) (es : List ThreadEvent) (hi : ℕ)
      → Numbered lo es hi
      → Numbered lo (put_event new es) hi
  unfolding put_event
  put_event-Numbered lo [] hi h = h
  put_event-Numbered lo (d ∷ es) hi h = elim (Bool-cases (d.seq == new.seq)) [
    | inl e ↦ let q : d.seq ≡ new.seq = ground arith in rw e (omega (arith, q), rw q at h.1)
    | inr e ↦ rw e (h.0, put_event-Numbered d.seq es hi h.1)
  ]

  put_event-All :
      (es : List ThreadEvent) → HasText old → All HasText es → All HasText (put_event new es)
  unfolding put_event
  put_event-All [] t h = h
  put_event-All (d ∷ es) t h = elim (Bool-cases (d.seq == new.seq)) [
    | inl e ↦ rw e ((rw r.text t.0, rw r.text t.1), h.1)
    | inr e ↦ rw e (h.0, put_event-All es t h.1)
  ]

  length-put_event : (es : List ThreadEvent) → length (put_event new es) ≡ length es
  unfolding put_event
  length-put_event [] = refl
  length-put_event (d ∷ es) = ground (arith, length-put_event es)

  -- what awaits the model does not grow
  waiting-put_event :
      (es : List ThreadEvent)
      → find_seq new.seq es ≡ some old
      → (length (filter is_unaddressed (put_event new es)) ≤ length (filter is_unaddressed es))
        × (chars (filter is_unaddressed (put_event new es)) ≤ chars (filter is_unaddressed es))
  unfolding put_event find_seq chars
  waiting-put_event [] f = cc
  waiting-put_event (d ∷ es) f = ground (arith, waiting-put_event es, r.text, r.settles)

pub find_seq-All :
    (P : ThreadEvent → Type 0) (n : ℕ) (es : List ThreadEvent) (e : ThreadEvent)
    → find_seq n es ≡ some e
    → All P es
    → P e
unfolding find_seq
find_seq-All P n [] e f h = cc
find_seq-All P n (d ∷ es) e f h = elim (Bool-cases (d.seq == n)) [
  | inl q ↦ let same : d ≡ e = ground arith in subst P same h.0
  | inr q ↦ find_seq-All P n es e (ground arith) h.1
]

abbrev pub with_events : RunLedger → List ThreadEvent → RunLedger
with_events l es = record l { events = es }

-- One replacement keeps the record valid.
put_event-IsValid :
    (l : RunLedger) (es : List ThreadEvent) (new old : ThreadEvent)
    → Replaces new old
    → find_seq new.seq es ≡ some old
    → IsValid (with_events l es)
    → IsValid (with_events l (put_event new es))
unfolding unaddressed
put_event-IsValid l es new old r f v =
    let (count, size) = waiting-put_event new old r es f in
    record {
      numbered = put_event-Numbered new old r 0 es l.revision v.numbered;
      retained = omega (arith, length-put_event new old r es, v.retained);
      pending = omega (arith, count, v.pending);
      pending_chars = omega (arith, size, v.pending_chars);
      late = v.late;
      texts = put_event-All new old r es (find_seq-All HasText new.seq es old f v.texts) v.texts;
      late_texts = v.late_texts;
    }

present-Replaces :
    (e : ThreadEvent) (anchor now : ℕ)
    → is_received e.stage ≡ true
    → Replaces (present e anchor now) e
unfolding present is_unaddressed
present-Replaces e anchor now h = record { seq = refl; text = refl; settles = λ k. ground arith }

decide-Replaces :
    (e : ThreadEvent) (d : Decision) (reply : Text) (now : ℕ) → Replaces (decide e d reply now) e
unfolding decide is_unaddressed decision_stage
decide-Replaces e d reply now = record { seq = refl; text = refl; settles = λ k. ground arith }

give_up-Replaces : (e : ThreadEvent) → Replaces (record e { outcome = some unacknowledged }) e
unfolding is_unaddressed
give_up-Replaces e = record { seq = refl; text = refl; settles = λ k. ground arith }

module _ (l : RunLedger) where
  put_found :
      (n : ℕ) (es : List ThreadEvent) (e new : ThreadEvent)
      → find_seq n es ≡ some e
      → Replaces new e
      → IsValid (with_events l es)
      → IsValid (with_events l (put_event new es))
  put_found n es e new f r v =
      put_event-IsValid l es new e r (rw (r.seq ∙ find_seq-seq n es e f) f) v

  present_all-IsValid :
      (ns : List ℕ) (anchor now : ℕ) (es : List ThreadEvent)
      → IsValid (with_events l es)
      → IsValid (with_events l (present_all ns anchor now es).1)
  unfolding present_all
  present_all-IsValid [] anchor now es v = v
  present_all-IsValid (n ∷ ns) anchor now es v = elim (Option-cases (find_seq n es)) [
    | inl f ↦ rw (f, present_all) (present_all-IsValid ns anchor now es v)
    | inr (e, f) ↦ elim (Bool-cases (is_received e.stage)) [
      | inl q ↦
          rw (f, present_all, q)
            (present_all-IsValid ns anchor now (put_event (present e anchor now) es)
              (put_found n es e (present e anchor now) f (present-Replaces e anchor now q) v))
      | inr q ↦ rw (f, present_all, q) (present_all-IsValid ns anchor now es v)
    ]
  ]

  decide_all-IsValid :
      (ns : List ℕ) (d : Decision) (reply : Text) (now : ℕ) (es : List ThreadEvent)
      → IsValid (with_events l es)
      → IsValid (with_events l (decide_all ns d reply now es).2)
  unfolding decide_all
  decide_all-IsValid [] d reply now es v = v
  decide_all-IsValid (n ∷ ns) d reply now es v = elim (Option-cases (find_seq n es)) [
    | inl f ↦ rw (f, decide_all) (decide_all-IsValid ns d reply now es v)
    | inr (e, f) ↦ elim (Bool-cases (is_received e.stage)) [
      | inl q ↦ rw (f, decide_all, q) (decide_all-IsValid ns d reply now es v)
      | inr q ↦
          rw (f, decide_all, q)
            (decide_all-IsValid ns d reply now (put_event (decide e d reply now) es)
              (put_found n es e (decide e d reply now) f (decide-Replaces e d reply now) v))
    ]
  ]

-- Two ledgers with the same messages and numbering are valid together.
same-IsValid :
    {l m : RunLedger}
    → m.events ≡ l.events
    → m.follow_ups ≡ l.follow_ups
    → m.revision ≡ l.revision
    → IsValid l
    → IsValid m
unfolding unaddressed
same-IsValid {l} {m} e f r v = record {
  numbered = rw (e, r) v.numbered;
  retained = rw e v.retained;
  pending = rw e v.pending;
  pending_chars = rw e v.pending_chars;
  late = rw f v.late;
  texts = rw e v.texts;
  late_texts = rw f v.late_texts;
}

-- Every transition of the coordinator, for whatever event numbers, keeps the record valid.
pub transition-IsValid : (l : RunLedger) (t : Transition) → IsValid l → IsValid (transition l t)
unfolding transition mark_presented record_decision give_up_on open_question close_question finalize
transition-IsValid l (mark seqs anchor now) v = present_all-IsValid l seqs anchor now l.events v
transition-IsValid l (record_as seqs d reply now) v =
    same-IsValid refl refl refl (decide_all-IsValid l seqs d reply now l.events v)
transition-IsValid l (give_up n) v = elim (Option-cases (find_seq n l.events)) [
  | inl f ↦ rw (f, give_up_at) v
  | inr (e, f) ↦
      rw (f, give_up_at)
        (put_found l n l.events e (record e { outcome = some unacknowledged }) f
          (give_up-Replaces e) v)
]
transition-IsValid l (ask text blocking default now) v = same-IsValid refl refl refl v
transition-IsValid l (close qid) v = same-IsValid (ground arith) (ground arith) (ground arith) v
transition-IsValid l finish v = same-IsValid (ground arith) (ground arith) (ground arith) v
