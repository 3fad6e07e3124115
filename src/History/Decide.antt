-- ===== src/History/Decide.antt =====
-- The decisions of history_policy.py: when an anchored window is kept, and what bounds it.
use discord_chat_bot.Prelude.{
  ℕ, zero, suc, ◌+◌, ◌≤◌, ◌<◌, min, ◌≡◌, ◌↔◌, refl, false, Option, none, some, List, [], ◌∷◌, pos,
  ◌≤ℤ◌, ◌<ℤ◌, pred_ℤ, length, any, All, arith,
}
use discord_chat_bot.History.{
  keep, refresh, snapshot, none_given, cold, burst, stale_trigger, AnchorState, decide_as, Fetched,
  max_window, initial_decision, new_since, window_decision, minimum, state_after_refresh,
}

module _ (s : AnchorState) (t : ℕ) (f : Fetched) (limit every : ℕ) where
  -- A window is kept exactly when it is within the maximum, holds no reset, and fewer than
  -- `every` messages have come since the last refresh, the trigger counted.
  pub window_decision-keep : (window_decision s t f limit every ≡ decide_as keep none_given) ↔ (
      (length f ≤ max_window limit every)
      × (any (λ m. m.1) f ≡ false)
      × (length (new_since s.refresh_trigger_id f) + 1 < every))
  unfolding window_decision
  window_decision-keep = (λ h. ground arith, λ h. ground arith)

  -- Where at most `limit` of the fetched messages are no newer than the last refresh, a window
  -- over the maximum has also reached the threshold.
  pub burst-threshold :
      length f ≤ limit + length (new_since s.refresh_trigger_id f)
      → window_decision s t f limit every ≡ decide_as refresh burst
      → every ≤ length (new_since s.refresh_trigger_id f) + 1
  unfolding window_decision
  burst-threshold h e = ground arith

-- Before any fetch: a channel without an anchor refreshes, a trigger older than the last
-- refresh takes a private snapshot, and only the others fetch.
pub initial_decision_cases :
    (o : Option AnchorState) (t : ℕ)
    → ((initial_decision o t ≡ some (decide_as refresh cold)) ↔ (o ≡ none))
      × ((initial_decision o t ≡ some (decide_as snapshot stale_trigger))
          ↔ ((s : AnchorState) × (o ≡ some s) × (t < s.refresh_trigger_id)))
      × ((initial_decision o t ≡ none)
          ↔ ((s : AnchorState) × (o ≡ some s) × (s.refresh_trigger_id ≤ t)))
unfolding initial_decision
initial_decision_cases none t = ((λ h. refl, λ h. refl), (λ h. cc, λ h. cc), (λ h. cc, λ h. cc))
initial_decision_cases (some s) t = (
  (λ h. ground arith, λ h. cc),
  (λ h. (s, refl, ground arith), λ h. ground arith),
  (λ h. (s, refl, ground arith), λ h. ground arith),
)

minimum-le : (x : ℕ) (xs : List ℕ) → (minimum x xs ≤ x) × All (λ i. minimum x xs ≤ i) xs
unfolding minimum
minimum-le x [] = (omega arith, tt)
minimum-le x (y ∷ ys) = let (a, b) = minimum-le (min x y) ys in (omega arith, (omega arith, b))

le-minimum : (m x : ℕ) (xs : List ℕ) → m ≤ x → All (λ i. m ≤ i) xs → m ≤ minimum x xs
unfolding minimum
le-minimum m x [] h k = h
le-minimum m x (y ∷ ys) h k = le-minimum m (min x y) ys (omega arith) k.1

All-map {ℓ} :
    {A : Type ℓ} {P Q : A → Type 0} → ((a : A) → P a → Q a) → (xs : List A) → All P xs → All Q xs
All-map f [] h = tt
All-map f (x ∷ xs) h = (f x h.0, All-map f xs h.1)

lt_of_pred_ℤ : (m i : ℕ) → m ≤ i → pred_ℤ m <ℤ pos i
lt_of_pred_ℤ zero i h = omega arith
lt_of_pred_ℤ (suc m) i h = omega arith

le_pred_ℤ : (m i : ℕ) → m < i → pos m ≤ℤ pred_ℤ i
le_pred_ℤ m zero h = absurd (omega arith)
le_pred_ℤ m (suc i) h = omega arith

-- the oldest message that the next window is to hold is among these
abbrev pub included_or_trigger : List ℕ → ℕ → List ℕ
included_or_trigger [] t = t ∷ []
included_or_trigger (x ∷ xs) t = x ∷ xs

-- The committed bound, which is exclusive, lies below every included id, and below the
-- trigger's if nothing is included: the next window reads all of them again.
pub state_after_refresh-admits :
    (ids : List ℕ) (t : ℕ)
    → All (λ i. (state_after_refresh ids t).after_id <ℤ pos i) (included_or_trigger ids t)
unfolding state_after_refresh
state_after_refresh-admits [] t = (lt_of_pred_ℤ t t (omega arith), tt)
state_after_refresh-admits (x ∷ xs) t =
    let (a, b) = minimum-le x xs in (lt_of_pred_ℤ _ x a, All-map (λ i. lt_of_pred_ℤ _ i) xs b)

-- It excludes every message that is older than all the included ones and the trigger.
pub state_after_refresh-excludes :
    (ids : List ℕ) (t m : ℕ)
    → m < t
    → All (λ i. m < i) ids
    → pos m ≤ℤ (state_after_refresh ids t).after_id
unfolding state_after_refresh
state_after_refresh-excludes [] t m h k = le_pred_ℤ m t h
state_after_refresh-excludes (x ∷ xs) t m h k = le_pred_ℤ m _ (le-minimum (suc m) x xs k.0 k.1)
