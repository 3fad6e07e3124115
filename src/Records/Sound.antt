-- ===== src/Records/Sound.antt =====
-- The due runs after an update and after a run's end.
use discord_chat_bot.Prelude.{
  All-append, ◌≡◌, inl, inr, refl, sym, ap, ◌∙◌, false, none, some, List, [], ◌∷◌, ◌++◌, All,
  Bool-cases,
}
use discord_chat_bot.Text.{Text}
use discord_chat_bot.Entries.{Entry, Command, set_record, Database, run_all, is_record, is_of_due}
use discord_chat_bot.Records.{
  kept_for, index_part, due_part, is_schedule, is_enabled, is_deleted, writes,
}
use discord_chat_bot.Records.Due.{due_of, IsScheduled, IsFor, due_runs_at}

module _ (e : Entry) where
  index_part-quiet : All (λ c. is_of_due c ≡ false) (index_part e)
  unfolding index_part
  index_part-quiet = elim (Bool-cases (is_deleted e.status)) [
    | inl d ↦ rw d (refl, tt)
    | inr d ↦ rw d tt
  ]

  pub parts-quiet : All (λ c. is_record c ≡ false) (index_part e ++ due_part e)
  unfolding index_part due_part
  parts-quiet =
      All-append (λ c. is_record c ≡ false) (index_part e) (due_part e)
        (elim (Bool-cases (is_deleted e.status)) [ inl d ↦ rw d (refl, tt) | inr d ↦ rw d tt ])
        (elim (Bool-cases (is_schedule e.kind)) [
          | inr r ↦ rw r tt
          | inl r ↦ elim (Bool-cases (is_enabled e.status)) [
            | inl n ↦ rw (r, n) (refl, tt)
            | inr n ↦ rw (r, n) (refl, tt)
          ]
        ])

  index_part-IsFor : All (IsFor e.ident) (index_part e)
  unfolding index_part IsFor
  index_part-IsFor = elim (Bool-cases (is_deleted e.status)) [
    | inl d ↦ rw d (tt, tt)
    | inr d ↦ rw d tt
  ]

  due_part-IsFor : All (IsFor e.ident) (due_part e)
  unfolding due_part IsFor
  due_part-IsFor = elim (Bool-cases (is_schedule e.kind)) [
    | inr r ↦ rw r tt
    | inl r ↦ elim (Bool-cases (is_enabled e.status)) [
      | inl n ↦ rw (r, n) (refl, tt)
      | inr n ↦ rw (r, n) (refl, tt)
    ]
  ]

  pub writes-IsFor : All (IsFor e.ident) (writes e)
  unfolding writes IsFor
  writes-IsFor =
      (refl, All-append (IsFor e.ident) (index_part e) (due_part e) index_part-IsFor due_part-IsFor)

module _ {S : Type 0} (db : Database S) where
  -- the run of a rule is not due
  rule_due :
      (e old : Entry) (s : S)
      → IsScheduled db s
      → db.entry s e.ident ≡ some old
      → old.kind ≡ e.kind
      → is_schedule e.kind ≡ false
      → db.due s e.ident ≡ none
  unfolding IsScheduled due_of
  rule_due e old s k q same r = k e.ident ∙ rw (q, same, r) refl

  pub entry-kept :
      (cs : List Command) (s : S) (j : Text)
      → All (λ c. is_record c ≡ false) cs
      → db.entry (run_all db cs s) j ≡ db.entry s j
  unfolding run_all
  entry-kept [] s j h = refl
  entry-kept (c ∷ cs) s j h = entry-kept cs (db.run c s) j h.1 ∙ db.entry-other s c j h.0

  run_all-append :
      (cs ds : List Command) (s : S) → run_all db (cs ++ ds) s ≡ run_all db ds (run_all db cs s)
  unfolding run_all
  run_all-append [] ds s = refl
  run_all-append (c ∷ cs) ds s = run_all-append cs ds (db.run c s)

  pub due-kept :
      (cs : List Command) (s : S) (j : Text)
      → All (λ c. is_of_due c ≡ false) cs
      → db.due (run_all db cs s) j ≡ db.due s j
  unfolding run_all
  due-kept [] s j h = refl
  due-kept (c ∷ cs) s j h = due-kept cs (db.run c s) j h.1 ∙ db.due-other s c j h.0

  module _ (e : Entry) where
    -- the last part, where the run of a rule is not due
    due_part-due :
        (s : S)
        → (is_schedule e.kind ≡ false → db.due s e.ident ≡ none)
        → db.due (run_all db (due_part e) s) e.ident ≡ due_of (some e)
    unfolding due_part run_all due_of
    due_part-due s h = elim (Bool-cases (is_schedule e.kind)) [
      | inr r ↦ rw r (h r)
      | inl r ↦ elim (Bool-cases (is_enabled e.status)) [
        | inl n ↦ rw (r, n) (db.due-set_due s e.ident e.next_run)
        | inr n ↦ rw (r, n) (db.due-drop_due s e.ident)
      ]
    ]

    pub entry-writes : (s : S) → db.entry (run_all db (writes e) s) e.ident ≡ some e
    unfolding writes run_all
    entry-writes s =
        entry-kept (index_part e ++ due_part e) (db.run (set_record e (kept_for e)) s) e.ident
          (parts-quiet e)
        ∙ db.entry-set_record s e (kept_for e)

    due-writes :
        (s : S)
        → (is_schedule e.kind ≡ false → db.due s e.ident ≡ none)
        → db.due (run_all db (writes e) s) e.ident ≡ due_of (some e)
    unfolding writes run_all
    due-writes s h =
        let s₁ = db.run (set_record e (kept_for e)) s in
        let s₂ = run_all db (index_part e) s₁ in
        let same : db.due s₂ e.ident ≡ db.due s e.ident =
          due-kept (index_part e) s₁ e.ident (index_part-quiet e)
          ∙ db.due-other s (set_record e (kept_for e)) e.ident refl in
        rw (run_all-append (index_part e) (due_part e) s₁) (due_part-due s₂ (λ r. same ∙ h r))

  -- What an update writes keeps the due runs right.
  pub writes-IsScheduled :
      (e old : Entry) (s : S)
      → IsScheduled db s
      → db.entry s e.ident ≡ some old
      → old.kind ≡ e.kind
      → IsScheduled db (run_all db (writes e) s)
  writes-IsScheduled e old s k q same =
      due_runs_at db e.ident (writes e) s (writes-IsFor e) k
        (due-writes e s (rule_due e old s k q same) ∙ ap due_of (sym (entry-writes e s)))
