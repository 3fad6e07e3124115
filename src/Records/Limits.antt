-- ===== src/Records/Limits.antt =====
-- What the indexes hold, counted for a quota.
use discord_chat_bot.Prelude.{
  All-of, ◌≡◌, refl, sym, ap, subst, ℕ, ◌+◌, ◌≤◌, Bool, true, false, inl, inr, Option, none, some,
  List, [], ◌∷◌, ◌++◌, if◌then◌else◌, filter, All, Bool-cases, arith,
}
use discord_chat_bot.Text.{Text, Text-discrete}
use discord_chat_bot.Entries.{
  Kind, Entry, Command, set_record, enter_index, leave_index, set_due, drop_due, set_terminal,
  drop_terminal, set_last_followup, Database, run_all, schedule, rule,
}
use discord_chat_bot.Records.Due.{IsFor, run_all-elsewhere}
use discord_chat_bot.Records.Quota.{
  Settings, Quota, kind_of, limit_of, is_counted, get_row, with_row, rows_of, active_count,
}

abbrev pub weight : Quota → Option Entry → ℕ
weight q none = 0
weight q (some e) = if is_counted q e then 1 else 0

unfoldable pub count : Quota → (Text → Option Entry) → List Text → ℕ
count q entry ids = active_count q (rows_of entry ids)

count-with_row :
    (q : Quota) (o : Option Entry) (rows : List Entry)
    → active_count q (with_row (get_row o) rows) ≡ weight q o + active_count q rows
unfolding active_count get_row
count-with_row q none rows = omega arith
count-with_row q (some e) rows = ground arith

pub count-cons :
    (q : Quota) (f : Text → Option Entry) (i : Text) (ids : List Text)
    → count q f (i ∷ ids) ≡ weight q (f i) + count q f ids
unfolding count rows_of
count-cons q f i ids = count-with_row q (f i) (rows_of f ids)

count-nil : (q : Quota) (f : Text → Option Entry) → count q f [] ≡ 0
unfolding count active_count rows_of
count-nil q f = refl

pub count-append :
    (q : Quota) (f : Text → Option Entry) (xs ys : List Text)
    → count q f (xs ++ ys) ≡ count q f xs + count q f ys
count-append q f [] ys = omega (arith, count-nil q f)
count-append q f (i ∷ xs) ys =
    omega (arith, count-cons q f i (xs ++ ys), count-cons q f i xs, count-append q f xs ys)

pub count-filter :
    (q : Quota) (f : Text → Option Entry) (p : Text → Bool) (ids : List Text)
    → count q f (filter p ids) ≤ count q f ids
count-filter q f p [] = omega arith
count-filter q f p (i ∷ ids) = elim (Bool-cases (p i)) [
  | inl e ↦
      rw e (
        omega
          (arith, count-cons q f i ids, count-cons q f i (filter p ids), count-filter q f p ids))
  | inr e ↦ rw e (omega (arith, count-cons q f i ids, count-filter q f p ids))
]

-- records that are not counted more often make no larger count
pub count-le :
    (q : Quota) (f g : Text → Option Entry) (ids : List Text)
    → All (λ i. weight q (f i) ≤ weight q (g i)) ids
    → count q f ids ≤ count q g ids
count-le q f g [] h = omega (arith, count-nil q f)
count-le q f g (i ∷ ids) h =
    omega (arith, h.0, count-cons q f i ids, count-cons q g i ids, count-le q f g ids h.1)

abbrev pub enters : Command → Bool
enters (enter_index k i at) = true
enters _ = false

module _ {S : Type 0} (db : Database S) where
  -- how many of the active entries a quota counts
  abbrev pub total : Quota → S → ℕ
  total q s = count q (db.entry s) (db.index s (kind_of q))

  -- no quota is exceeded
  unfoldable pub IsWithin : Settings → S → Type 0
  IsWithin cfg s = (q : Quota) → total q s ≤ limit_of cfg q

  module _ (q : Quota) (f : Text → Option Entry) where
    same_count : (xs ys : List Text) → xs ≡ ys → count q f xs ≤ count q f ys
    same_count xs ys e = omega (arith, ap (count q f) e)

    left_count :
        (s : S) (k : Kind) (i : Text) (l : Kind)
        → count q f (db.index (db.run (leave_index k i) s) l) ≤ count q f (db.index s l)
    left_count s schedule i schedule =
        rw (db.index-leave s schedule i) (count-filter q f _ (db.index s schedule))
    left_count s rule i rule = rw (db.index-leave s rule i) (count-filter q f _ (db.index s rule))
    left_count s schedule i rule =
        same_count _ _ (db.index-leave_other s schedule i rule (λ p. cc p))
    left_count s rule i schedule =
        same_count _ _ (db.index-leave_other s rule i schedule (λ p. cc p))

    -- a command that enters no name makes no count larger
    count-run :
        (c : Command) (s : S) (l : Kind)
        → enters c ≡ false
        → count q f (db.index (db.run c s) l) ≤ count q f (db.index s l)
    count-run (leave_index k i) s l h = left_count s k i l
    count-run (enter_index k i at) s l h = cc h
    count-run (set_record e kept) s l h =
        same_count _ _ (db.index-other s (set_record e kept) l refl)
    count-run (set_due i at) s l h = same_count _ _ (db.index-other s (set_due i at) l refl)
    count-run (drop_due i) s l h = same_count _ _ (db.index-other s (drop_due i) l refl)
    count-run (set_terminal i at) s l h =
        same_count _ _ (db.index-other s (set_terminal i at) l refl)
    count-run (drop_terminal i) s l h = same_count _ _ (db.index-other s (drop_terminal i) l refl)
    count-run (set_last_followup p at) s l h =
        same_count _ _ (db.index-other s (set_last_followup p at) l refl)

    count-run_all :
        (cs : List Command) (s : S) (l : Kind)
        → All (λ c. enters c ≡ false) cs
        → count q f (db.index (run_all db cs s) l) ≤ count q f (db.index s l)
    unfolding run_all
    count-run_all [] s l h = omega arith
    count-run_all (c ∷ cs) s l h =
        omega (arith, count-run c s l h.0, count-run_all cs (db.run c s) l h.1)

  -- commands for one record that enter no name and leave it no weightier
  pub run_all-IsWithin :
      (cfg : Settings) (i : Text) (cs : List Command) (s : S)
      → All (IsFor i) cs
      → All (λ c. enters c ≡ false) cs
      → ((q : Quota) → weight q (db.entry (run_all db cs s) i) ≤ weight q (db.entry s i))
      → IsWithin cfg s
      → IsWithin cfg (run_all db cs s)
  unfolding IsWithin
  run_all-IsWithin cfg i cs s for_one quiet light w q =
      let ids = db.index (run_all db cs s) (kind_of q) in
      omega (
        arith,
        count-le q (db.entry (run_all db cs s)) (db.entry s) ids (All-of _ no_weightier ids),
        count-run_all q (db.entry s) cs s (kind_of q) quiet,
        w q,
      )
    where
      no_weightier : (j : Text) → weight q (db.entry (run_all db cs s) j) ≤ weight q (db.entry s j)
      no_weightier j = elim (Text-discrete j i) [
        | yes e ↦
            subst (λ j. weight q (db.entry (run_all db cs s) j) ≤ weight q (db.entry s j)) (sym e)
              (light q)
        | no n ↦ omega (arith, ap (weight q) (run_all-elsewhere db i cs s j for_one n).0)
      ]
