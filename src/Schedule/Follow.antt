-- ===== src/Schedule/Follow.antt =====
-- followup_conflict of core/classes/automation_policy.py.
use discord_chat_bot.Prelude.{
  ℕ, ◌*◌, ◌≤◌, ◌≡◌, ◌↔◌, inl, inr, refl, Bool, false, none, List, [], ◌∷◌, ltb, filter, All,
  Option-cases, arith,
}
use discord_chat_bot.Schedule.{distance, closest, followup_conflict, hour}

closest-none : (at : ℕ) (xs : List ℕ) → (closest at xs ≡ none) → xs ≡ []
unfolding closest
closest-none at [] h = refl
closest-none at (x ∷ xs) h = elim (Option-cases (closest at xs)) [
  | inl e ↦ ground arith
  | inr (y, e) ↦ ground arith
]

filter-none : (p : ℕ → Bool) (xs : List ℕ) → (filter p xs ≡ []) ↔ All (λ x. p x ≡ false) xs
filter-none p [] = (λ _. tt, λ _. refl)
filter-none p (x ∷ xs) = ground (arith, filter-none p xs)

apart :
    (at gap : ℕ) (xs : List ℕ)
    → All (λ x. ltb (distance x at) gap ≡ false) xs ↔ All (λ x. gap ≤ distance x at) xs
apart at gap [] = (λ h. h, λ h. h)
apart at gap (x ∷ xs) = (
  λ h. (ground (arith, h.0), (apart at gap xs).0 h.1),
  λ h. (ground (arith, h.0), (apart at gap xs).1 h.1),
)

closest-nil : (at : ℕ) (xs : List ℕ) → xs ≡ [] → closest at xs ≡ none
unfolding closest
closest-nil at [] h = refl
closest-nil at (x ∷ xs) h = ground arith

-- A follow-up has no conflict exactly when every other is at least the minimum gap away.
pub followup_conflict-none :
    (at : ℕ) (others : List ℕ) (min_hours : ℕ)
    → (followup_conflict at others min_hours ≡ none)
      ↔ All (λ other. min_hours * hour ≤ distance other at) others
unfolding followup_conflict
followup_conflict-none at others min_hours =
    let gap = min_hours * hour in
    let test : ℕ → Bool = λ other. ltb (distance other at) gap in
    let close = filter test others in
    (
      λ h. (apart at gap others).0 ((filter-none test others).0 (closest-none at close h)),
      λ h. closest-nil at close ((filter-none test others).1 ((apart at gap others).1 h)),
    )
