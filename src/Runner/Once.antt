-- ===== src/Runner/Once.antt =====
-- An occurrence of a schedule runs the model once.
use discord_chat_bot.Prelude.{
  ℕ, ◌+◌, ◌≤◌, ◌<◌, ◌≡◌, ◌≢◌, refl, sym, subst, inl, inr, ◌⊎◌, true, false, Option, List, [], ◌∷◌,
  any, All, Bool-cases, arith,
}
use discord_chat_bot.Text.{Text, codes}
use discord_chat_bot.Claims.{KeyStore, Claim, Op, is_some, steps}
use discord_chat_bot.Claims.Held.{IsHeld, IsHeld-later}
use discord_chat_bot.Claims.Runs.{IsRun, last_time, steps-IsHeld}
use discord_chat_bot.Entries.{Entry}
use discord_chat_bot.Records.{is_schedule}
use discord_chat_bot.Runner.{
  World, Effect, broken, current_rows, started_key, release_all, read_all, run_rows, work, execute,
}
use discord_chat_bot.Runner.Quiet.{is_ran, IsQuiet-any, fail-IsQuiet}
use discord_chat_bot.Runner.Marks.{
  one_current, later_time, held_at, ran-IsHeld, marked-IsQuiet, release_all-IsHeld,
}

module _ {S : Type 0} (store : KeyStore S) (guild : ℕ) where
  -- a job of one row runs it if it still stands, or does not get to the model
  one_work :
      (w : World) (entry : Text → Option Entry) (now : ℕ) (row : Entry) (s : S)
      → (work store guild w entry now (row ∷ []) s
          ≡ run_rows store guild w now (current_rows entry (row ∷ [])) s)
        ⊎ (any is_ran (work store guild w entry now (row ∷ []) s).0 ≡ false)
  unfolding work read_all current_rows
  one_work w entry now row s = elim (Bool-cases (w.reads row)) [
    | inl e ↦ inl (rw e refl)
    | inr e ↦ inr (rw e (IsQuiet-any _ (fail-IsQuiet w [] (broken false false))))
  ]

  work-IsHeld :
      (w : World) (entry : Text → Option Entry) (now : ℕ) (row : Entry) (s : S)
      → is_schedule row.kind ≡ true
      → any is_ran (work store guild w entry now (row ∷ []) s).0 ≡ true
      → IsHeld store
          (work store guild w entry now (row ∷ []) s).1
          (started_key guild row)
          (codes "1")
          now
          (now + 604800)
  work-IsHeld w entry now row s k h = elim (one_work w entry now row s) [
    | inl e ↦
        subst
          (λ (p : List Effect × S).
            IsHeld store p.1 (started_key guild row) (codes "1") now (now + 604800))
          (sym e)
          (ran-IsHeld store guild row k w now (current_rows entry (row ∷ [])) s
            (one_current store guild entry row)
            (subst (λ (p : List Effect × S). any is_ran p.0 ≡ true) e h))
    | inr e ↦ cc
  ]

  work-IsQuiet :
      (w : World) (entry : Text → Option Entry) (now : ℕ) (row : Entry) (s : S)
      → is_schedule row.kind ≡ true
      → is_some (store.get now s (started_key guild row)) ≡ true
      → any is_ran (work store guild w entry now (row ∷ []) s).0 ≡ false
  work-IsQuiet w entry now row s k h = elim (one_work w entry now row s) [
    | inl e ↦
        subst (λ (p : List Effect × S). any is_ran p.0 ≡ false) (sym e)
          (marked-IsQuiet store guild row k w now (current_rows entry (row ∷ [])) s
            (one_current store guild entry row) h)
    | inr e ↦ e
  ]

  -- A job for an occurrence of a schedule that has run the model leaves a mark. Whatever the workers
  -- do meanwhile, another job for the occurrence within a week does not run the model.
  pub execute_once :
      (w w' : World) (entry entry' : Text → Option Entry) (now later : ℕ) (row row' : Entry)
      (claims claims' : List Claim) (s : S) (ops : List (ℕ × Op)) (t later' : ℕ)
      → is_schedule row.kind ≡ true
      → is_schedule row'.kind ≡ true
      → started_key guild row' ≡ started_key guild row
      → now ≤ later
      → All (λ c. c.token ≢ codes "1") claims
      → any is_ran (execute store guild w entry now later (row ∷ []) claims s).0 ≡ true
      → IsRun store (started_key guild row) (codes "1") later (now + 604800) ops
      → last_time store later ops ≤ t
      → t < now + 604800
      → any is_ran
          (execute store guild w' entry' t later'
            (row' ∷ [])
            claims'
            (steps store ops (execute store guild w entry now later (row ∷ []) claims s).1)).0
        ≡ false
  unfolding execute
  execute_once w w' entry entry' now later row row' claims claims' s ops t later' k k' same le n h r
        a b =
      let in_time =
        later_time store guild (started_key guild row) (codes "1") later (now + 604800) ops r in
      let s₁ = (work store guild w entry now (row ∷ []) s).1 in
      let s₂ = release_all store w.releases later claims s₁ in
      let marked = work-IsHeld w entry now row s k h in
      let kept =
        release_all-IsHeld store guild w.releases (started_key guild row) (codes "1") later
          (now + 604800) claims s₁ (omega (arith, in_time, a, b)) n
          (IsHeld-later store s₁ (started_key guild row) (codes "1") now later (now + 604800) le
            marked) in
      let held =
        steps-IsHeld store (started_key guild row) (codes "1") later (now + 604800) ops s₂ r kept in
      work-IsQuiet w' entry' t row' (steps store ops s₂) k' (
        rw
          (
            same,
            held_at store guild (steps store ops s₂) (started_key guild row)
                (last_time store later ops) (now + 604800) t held a b,
          )
          refl)
