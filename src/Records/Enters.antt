-- ===== src/Records/Enters.antt =====
-- What the commands of a new record do to the due runs and to the quotas.
use discord_chat_bot.Prelude.{
  All-split, ℕ, ◌+◌, ◌≤◌, ◌<◌, ◌≡◌, ◌≢◌, refl, sym, ap, subst, ◌∙◌, inl, inr, ◌⊎◌, and-true, Bool,
  true, false, Option, none, some, List, [], ◌∷◌, ◌++◌, if◌then◌else◌, All, Bool-cases, arith,
}
use discord_chat_bot.Text.{Text}
use discord_chat_bot.Entries.{
  Kind, schedule, rule, Entry, Command, set_record, enter_index, set_due, Database, run_all,
}
use discord_chat_bot.Records.{is_enabled, is_schedule}
use discord_chat_bot.Records.Due.{due_of, IsScheduled, IsFor, due_runs_at, run_all-elsewhere}
use discord_chat_bot.Records.Sound.{entry-kept}
use discord_chat_bot.Records.Quota.{
  Settings, Quota, schedules, followups, rules, quota_of, kind_of, limit_of, is_counted,
  is_counted_by, active_count, creates, rows_of,
}
use discord_chat_bot.Records.Limits.{weight, count, count-cons, count-append, count-le, IsWithin}

-- what counts against a quota of the record's kind counts against its own
own_quota :
    (q : Quota) (k : Kind) (b : Bool) → kind_of q ≡ k → is_counted_by q b ≡ true → q ≡ quota_of k b
own_quota schedules schedule true h k = cc k
own_quota schedules schedule false h k = refl
own_quota followups schedule true h k = refl
own_quota followups schedule false h k = cc k
own_quota rules rule b h k = refl
own_quota schedules rule b h k = cc h
own_quota followups rule b h k = cc h
own_quota rules schedule b h k = cc h

abbrev due_commands : Entry → List Command
due_commands e = if is_schedule e.kind then set_due e.ident e.next_run ∷ [] else []

Kind-cases : (k l : Kind) → (k ≡ l) ⊎ (k ≢ l)
Kind-cases schedule schedule = inl refl
Kind-cases schedule rule = inr (λ p. cc p)
Kind-cases rule schedule = inr (λ p. cc p)
Kind-cases rule rule = inl refl

-- an entry counts at most once, and then against its own quota
weight-le :
    (q : Quota) (e : Entry)
    → kind_of q ≡ e.kind
    → (weight q (some e) ≤ 1) × ((weight q (some e) ≡ 0) ⊎ (q ≡ quota_of e.kind e.followup))
weight-le q e h = elim (Bool-cases (is_counted q e)) [
  | inl c ↦ (ground arith, inr (own_quota q e.kind e.followup h (and-true _ _ c).1))
  | inr c ↦ (ground arith, inl (rw c refl))
]

module _ {S : Type 0} (db : Database S) (e : Entry) (now : ℕ) (s : S) where
  creates-IsFor : All (IsFor e.ident) (creates e now)
  unfolding creates IsFor
  creates-IsFor = elim (Bool-cases (is_schedule e.kind)) [
    | inl k ↦ rw k (refl, (tt, (refl, tt)))
    | inr k ↦ rw k (refl, (tt, tt))
  ]

  entry-creates : db.entry (run_all db (creates e now) s) e.ident ≡ some e
  unfolding creates run_all
  entry-creates =
      entry-kept db (enter_index e.kind e.ident now ∷ due_commands e) (db.run (set_record e none) s)
        e.ident
        (refl, elim (Bool-cases (is_schedule e.kind)) [ inl k ↦ rw k (refl, tt) | inr k ↦ rw k tt ])
      ∙ db.entry-set_record s e none

  due-creates :
      is_enabled e.status ≡ true
      → db.due s e.ident ≡ none
      → db.due (run_all db (creates e now) s) e.ident ≡ due_of (some e)
  unfolding creates run_all due_of
  due-creates up idle =
      let s₁ = db.run (set_record e none) s in
      let s₂ = db.run (enter_index e.kind e.ident now) s₁ in
      elim (Bool-cases (is_schedule e.kind)) [
        | inl k ↦ rw (k, up) (db.due-set_due s₂ e.ident e.next_run)
        | inr k ↦ rw k (
            db.due-other s₁ (enter_index e.kind e.ident now) e.ident refl
            ∙ (db.due-other s (set_record e none) e.ident refl ∙ idle))
      ]

  pub creates-IsScheduled :
      IsScheduled db s
      → is_enabled e.status ≡ true
      → db.entry s e.ident ≡ none
      → IsScheduled db (run_all db (creates e now) s)
  unfolding IsScheduled due_of
  creates-IsScheduled k up new =
      due_runs_at db e.ident (creates e now) s creates-IsFor k
        (due-creates up (k e.ident ∙ rw new refl) ∙ ap due_of (sym entry-creates))

  module _ (fresh : (k : Kind) → All (λ j. j ≢ e.ident) (db.index s k)) where
    abbrev after : Text → Option Entry
    after = db.entry (run_all db (creates e now) s)

    -- the other records are as before
    same_weights :
        (q : Quota) (ids : List Text)
        → All (λ j. j ≢ e.ident) ids
        → All (λ j. weight q (after j) ≤ weight q (db.entry s j)) ids
    same_weights q [] h = tt
    same_weights q (j ∷ ids) h = (
      omega (
        arith,
        ap (weight q) (run_all-elsewhere db e.ident (creates e now) s j creates-IsFor h.0).0,
      ),
      same_weights q ids h.1,
    )

    last_index :
        (l : Kind)
        → db.index (run_all db (creates e now) s) l
          ≡ db.index (db.run (enter_index e.kind e.ident now) (db.run (set_record e none) s)) l
    unfolding creates run_all
    last_index l = elim (Bool-cases (is_schedule e.kind)) [
      | inl k ↦ rw k (db.index-other _ (set_due e.ident e.next_run) l refl)
      | inr k ↦ rw k refl
    ]

    entered_count :
        (q : Quota) (xs ys : List Text)
        → All (λ j. j ≢ e.ident) (xs ++ ys)
        → count q after (xs ++ e.ident ∷ ys) ≤ count q (db.entry s) (xs ++ ys) + weight q (some e)
    entered_count q xs ys h =
        let (h₁, h₂) = All-split (λ j. j ≢ e.ident) xs ys h in
        omega (
          arith,
          count-append q after xs (e.ident ∷ ys),
          count-cons q after e.ident ys,
          count-append q (db.entry s) xs ys,
          ap (weight q) entry-creates,
          count-le q after (db.entry s) xs (same_weights q xs h₁),
          count-le q after (db.entry s) ys (same_weights q ys h₂),
        )

    own_count :
        (q : Quota)
        → count q after (db.index (run_all db (creates e now) s) e.kind)
          ≤ count q (db.entry s) (db.index s e.kind) + weight q (some e)
    own_count q =
        let s₁ = db.run (set_record e none) s in
        let kept = db.index-other s (set_record e none) e.kind refl in
        let new = subst (All (λ j. j ≢ e.ident)) (sym kept) (fresh e.kind) in
        let (xs, ys, old, entered) = db.index-enter s₁ e.kind e.ident now new in
        omega (
          arith,
          ap (count q after) (last_index e.kind ∙ entered),
          ap (count q (db.entry s)) (sym kept ∙ old),
          entered_count q xs ys (subst (All (λ j. j ≢ e.ident)) old new),
        )

    other_count :
        (q : Quota) (l : Kind)
        → l ≢ e.kind
        → count q after (db.index (run_all db (creates e now) s) l)
          ≤ count q (db.entry s) (db.index s l)
    other_count q l n =
        let s₁ = db.run (set_record e none) s in
        let same =
          last_index l
          ∙ (db.index-enter_other s₁ e.kind e.ident now l n
              ∙ db.index-other s (set_record e none) l refl) in
        omega (
          arith,
          ap (count q after) same,
          count-le q after (db.entry s) (db.index s l) (same_weights q (db.index s l) (fresh l)),
        )

    pub creates-IsWithin :
        (cfg : Settings)
        → active_count (quota_of e.kind e.followup) (rows_of (db.entry s) (db.index s e.kind))
          < limit_of cfg (quota_of e.kind e.followup)
        → IsWithin db cfg s
        → IsWithin db cfg (run_all db (creates e now) s)
    unfolding IsWithin count
    creates-IsWithin cfg free within q = elim (Kind-cases (kind_of q) e.kind) [
      | inr n ↦ omega (arith, other_count q (kind_of q) n, within q)
      | inl p ↦
          let grown =
            subst
              (λ k.
                count q after (db.index (run_all db (creates e now) s) k)
                ≤ count q (db.entry s) (db.index s k) + weight q (some e))
              (sym p) (own_count q) in
          let (once, against) = weight-le q e p in
          elim against [
            | inl light ↦ omega (arith, grown, within q, light)
            | inr own ↦ omega (arith, grown, once, spare q p own)
          ]
    ]
      where
        spare :
            (q : Quota)
            → kind_of q ≡ e.kind
            → q ≡ quota_of e.kind e.followup
            → count q (db.entry s) (db.index s (kind_of q)) < limit_of cfg q
        spare q p own =
            subst (λ k. count q (db.entry s) (db.index s k) < limit_of cfg q) (sym p)
              (subst (λ q. count q (db.entry s) (db.index s e.kind) < limit_of cfg q) (sym own)
                free)
