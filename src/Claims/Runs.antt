-- ===== src/Claims/Runs.antt =====
-- A claim's keys over any operations of the other workers.
use discord_chat_bot.Prelude.{ℕ, ◌≤◌, ◌<◌, ◌≢◌, ◌⊎◌, none, some, List, [], ◌∷◌}
use discord_chat_bot.Text.{Text}
use discord_chat_bot.Claims.{
  KeyStore, release, cancelled_keys, cancel_claim, Op, claims, claims_rule, releases, cancels,
  renews, step, steps,
}
use discord_chat_bot.Claims.Held.{
  IsHeld, IsHeld-later, claim-IsHeld, claim_rule-IsHeld, renew-IsHeld, release-IsHeld,
  del_all_owned-IsHeld,
}

module _ {S : Type 0} (store : KeyStore S) where
  -- an operation that leaves the key alone: its claim has another token, or it releases another lock
  unfoldable pub IsHarmless : Text → Text → Op → Type 0
  IsHarmless key token (releases none) = Unit
  IsHarmless key token (releases (some c)) = (c.token ≢ token) ⊎ (key ≢ c.lock)
  IsHarmless key token (cancels c rule) = c.token ≢ token
  IsHarmless key token (renews c seconds) = c.token ≢ token
  IsHarmless key token _ = Unit

  step-IsHeld :
      (key token : Text) (now until : ℕ) (op : Op) (s : S)
      → now < until
      → IsHarmless key token op
      → IsHeld store s key token now until
      → IsHeld store (step store now op s) key token now until
  unfolding step IsHarmless release cancel_claim
  step-IsHeld key token now until (claims other occurrence token' seconds) s live n h =
      claim-IsHeld store now s key token until live h other occurrence token' seconds
  step-IsHeld key token now until (claims_rule other m token' cooldown) s live n h =
      claim_rule-IsHeld store now s key token until live h other m token' cooldown
  step-IsHeld key token now until (releases none) s live n h = h
  step-IsHeld key token now until (releases (some c)) s live n h =
      release-IsHeld store now s key token until live h c n
  step-IsHeld key token now until (cancels c rule) s live n h =
      del_all_owned-IsHeld store now key token until c.token live n (cancelled_keys c rule) s h
  step-IsHeld key token now until (renews c seconds) s live n h =
      renew-IsHeld store now s key token until live h c seconds n

  -- operations of that kind, in the order of their times, after the one time and before the other
  unfoldable pub IsRun : Text → Text → ℕ → ℕ → List (ℕ × Op) → Type 0
  IsRun key token from until [] = Unit
  IsRun key token from until ((now, op) ∷ ops) =
      (from ≤ now) × (now < until) × IsHarmless key token op × IsRun key token now until ops

  -- the time of the last of them
  abbrev pub last_time : ℕ → List (ℕ × Op) → ℕ
  last_time from [] = from
  last_time from ((now, op) ∷ ops) = last_time now ops

  pub steps-IsHeld :
      (key token : Text) (from until : ℕ) (ops : List (ℕ × Op)) (s : S)
      → IsRun key token from until ops
      → IsHeld store s key token from until
      → IsHeld store (steps store ops s) key token (last_time from ops) until
  unfolding steps IsRun
  steps-IsHeld key token from until [] s r h = h
  steps-IsHeld key token from until ((now, op) ∷ ops) s r h =
      steps-IsHeld key token now until ops (step store now op s) r.3 (
        step-IsHeld key token now until op s r.1 r.2
          (IsHeld-later store s key token from now until r.0 h))
