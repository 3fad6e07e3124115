-- ===== src/Runner/Marks.antt =====
-- The marks that a job leaves for the occurrences of its schedules.
use discord_chat_bot.Prelude.{
  ℕ, ◌+◌, ◌≤◌, ◌<◌, ◌≡◌, ◌≢◌, refl, sym, subst, inl, inr, ◌⊎◌, Bool, true, false, Option, none,
  some, List, [], ◌∷◌, any, All, Bool-cases, arith,
}
use discord_chat_bot.Text.{Text, codes}
use discord_chat_bot.Claims.{KeyStore, Claim, Op, is_some, release}
use discord_chat_bot.Claims.Held.{IsHeld, release-IsHeld}
use discord_chat_bot.Claims.Runs.{IsRun, last_time}
use discord_chat_bot.Entries.{Entry}
use discord_chat_bot.Records.{is_schedule}
use discord_chat_bot.Records.Quota.{get_row}
use discord_chat_bot.Runner.{
  World, Raised, access, current_rows, is_same_revision, started_key, fail, mark_all, release_all,
  start, run_rows,
}
use discord_chat_bot.Runner.Quiet.{is_ran, IsQuiet-any, fail-IsQuiet}

module _ {S : Type 0} (store : KeyStore S) (guild : ℕ) where
  -- a run of the model comes behind marks that were new
  start-marks :
      (w : World) (now : ℕ) (rows : List Entry) (r : Option Raised) (s : S)
      → any is_ran (start store guild w now rows r s).0 ≡ true
      → ((mark_all store guild now rows s).0 ≡ true)
        × ((start store guild w now rows r s).1 ≡ (mark_all store guild now rows s).1)
  start-marks w now rows (some r) s h =
      let quiet = IsQuiet-any (fail w rows r) (fail-IsQuiet w rows r) in cc
  start-marks w now rows none s h = elim (Bool-cases (mark_all store guild now rows s).0) [
    | inl e ↦ (e, refl)
    | inr e ↦ cc (rw e at h)
  ]

  run_rows-marks :
      (w : World) (now : ℕ) (rows : List Entry) (s : S)
      → any is_ran (run_rows store guild w now rows s).0 ≡ true
      → ((mark_all store guild now rows s).0 ≡ true)
        × ((run_rows store guild w now rows s).1 ≡ (mark_all store guild now rows s).1)
  unfolding run_rows
  run_rows-marks w now [] s h = cc h
  run_rows-marks w now (row ∷ rows) s h = start-marks w now (row ∷ rows) (access w) s h

  module _ (row : Entry) (sched : is_schedule row.kind ≡ true) where
    mark-old :
        (now : ℕ) (s : S)
        → is_some (store.get now s (started_key guild row)) ≡ true
        → mark_all store guild now (row ∷ []) s ≡ (false, s)
    unfolding mark_all
    mark-old now s e = rw (sched, e) refl

    mark-new :
        (now : ℕ) (s : S)
        → is_some (store.get now s (started_key guild row)) ≡ false
        → mark_all store guild now (row ∷ []) s
          ≡ (true, store.set_ex now (started_key guild row) (codes "1") 604800 s)
    unfolding mark_all
    mark-new now s e = rw (sched, e) refl

    -- the mark that is set stays for a week
    mark-IsHeld :
        (now : ℕ) (s : S)
        → (mark_all store guild now (row ∷ []) s).0 ≡ true
        → IsHeld store
            (mark_all store guild now (row ∷ []) s).1
            (started_key guild row)
            (codes "1")
            now
            (now + 604800)
    unfolding IsHeld
    mark-IsHeld now s h = elim (Bool-cases (is_some (store.get now s (started_key guild row)))) [
      | inl e ↦
          let none_set : false ≡ true = subst (λ (p : Bool × S). p.0 ≡ true) (mark-old now s e) h in
          cc
      | inr e ↦
          rw (mark-new now s e)
            (λ t a b. store.get-set_ex now (started_key guild row) (codes "1") 604800 s t a b)
    ]

    start-IsQuiet :
        (w : World) (now : ℕ) (r : Option Raised) (s : S)
        → is_some (store.get now s (started_key guild row)) ≡ true
        → any is_ran (start store guild w now (row ∷ []) r s).0 ≡ false
    start-IsQuiet w now (some r) s h =
        IsQuiet-any (fail w (row ∷ []) r) (fail-IsQuiet w (row ∷ []) r)
    start-IsQuiet w now none s h = rw (mark-old now s h) refl

  pub release_all-IsHeld :
      (releases : Claim → Bool) (key token : Text) (now until : ℕ) (cs : List Claim) (s : S)
      → now < until
      → All (λ c. c.token ≢ token) cs
      → IsHeld store s key token now until
      → IsHeld store (release_all store releases now cs s) key token now until
  unfolding release_all
  release_all-IsHeld releases key token now until [] s live n h = h
  release_all-IsHeld releases key token now until (c ∷ cs) s live n h =
      elim (Bool-cases (releases c)) [
        | inl e ↦ rw e (
            release_all-IsHeld releases key token now until cs (release store now (some c) s) live
              n.1 (release-IsHeld store now s key token until live h c (inl n.0)))
        | inr e ↦ rw e (release_all-IsHeld releases key token now until cs s live n.1 h)
      ]

  -- what still stands of one row
  pub one_current :
      (entry : Text → Option Entry) (row : Entry)
      → (current_rows entry (row ∷ []) ≡ row ∷ []) ⊎ (current_rows entry (row ∷ []) ≡ [])
  unfolding current_rows
  one_current entry row = elim (Bool-cases (is_same_revision row (get_row (entry row.ident)))) [
    | inl e ↦ inl (rw e refl)
    | inr e ↦ inr (rw e refl)
  ]

  pub held_at :
      (s : S) (key : Text) (from until t : ℕ)
      → IsHeld store s key (codes "1") from until
      → from ≤ t
      → t < until
      → store.get t s key ≡ some (codes "1")
  unfolding IsHeld
  held_at s key from until t h a b = h t a b

  no_run :
      (w : World) (now : ℕ) (s : S)
      → any is_ran (run_rows store guild w now [] s).0 ≡ true
      → false ≡ true
  unfolding run_rows
  no_run w now s h = h

  pub later_time :
      (key token : Text) (from until : ℕ) (ops : List (ℕ × Op))
      → IsRun store key token from until ops
      → from ≤ last_time store from ops
  unfolding IsRun
  later_time key token from until [] r = omega arith
  later_time key token from until ((now, op) ∷ ops) r =
      omega (arith, r.0, later_time key token now until ops r.3)

  module _ (row : Entry) (sched : is_schedule row.kind ≡ true) where
    pub ran-IsHeld :
        (w : World) (now : ℕ) (rows : List Entry) (s : S)
        → (rows ≡ row ∷ []) ⊎ (rows ≡ [])
        → any is_ran (run_rows store guild w now rows s).0 ≡ true
        → IsHeld store
            (run_rows store guild w now rows s).1
            (started_key guild row)
            (codes "1")
            now
            (now + 604800)
    ran-IsHeld w now rows s (inl e) =
        subst
          (λ rows.
            any is_ran (run_rows store guild w now rows s).0 ≡ true
            → IsHeld store (run_rows store guild w now rows s).1 (started_key guild row) (codes "1")
                now (now + 604800))
          (sym e)
          λ h.
            let (fresh, same) = run_rows-marks w now (row ∷ []) s h in
            subst (λ s. IsHeld store s (started_key guild row) (codes "1") now (now + 604800))
              (sym same) (mark-IsHeld row sched now s fresh)
    ran-IsHeld w now rows s (inr e) =
        subst
          (λ rows.
            any is_ran (run_rows store guild w now rows s).0 ≡ true
            → IsHeld store (run_rows store guild w now rows s).1 (started_key guild row) (codes "1")
                now (now + 604800))
          (sym e) (nothing w now s)
      where
        nothing :
            (w : World) (now : ℕ) (s : S)
            → any is_ran (run_rows store guild w now [] s).0 ≡ true
            → IsHeld store
                (run_rows store guild w now [] s).1
                (started_key guild row)
                (codes "1")
                now
                (now + 604800)
        nothing w now s h = let (fresh, same) = run_rows-marks w now [] s h in cc (no_run w now s h)

    pub marked-IsQuiet :
        (w : World) (now : ℕ) (rows : List Entry) (s : S)
        → (rows ≡ row ∷ []) ⊎ (rows ≡ [])
        → is_some (store.get now s (started_key guild row)) ≡ true
        → any is_ran (run_rows store guild w now rows s).0 ≡ false
    unfolding run_rows
    marked-IsQuiet w now rows s (inl e) h = rw e (start-IsQuiet row sched w now (access w) s h)
    marked-IsQuiet w now rows s (inr e) h = rw e refl
