-- ===== src/Queue/Hint.antt =====
-- in_flight_hint of core/classes/message_queue.py: when there is something to tell.
use discord_chat_bot.Prelude.{
  ℕ, ◌≡◌, ◌↔◌, refl, Bool, true, false, ◌&&◌, Option, none, some, List, [], ◌∷◌, ◌++◌, map, filter,
  lookup, ℕ_discrete, arith, All,
}
use discord_chat_bot.Text.{Text, join, Text-discrete, is_empty}
use discord_chat_bot.Queue.{
  Runs, Registry, or_empty, runs_in, hint_text, is_recent, running_line, done_line, in_flight_hint,
}
use discord_chat_bot.Queue.Sound.{recent_of, IsSound, IsStep}

is_empty-hint_text :
    (running done : List Text) → is_empty (hint_text running done) ≡ is_empty (running ++ done)
unfolding hint_text join
is_empty-hint_text [] [] = refl
is_empty-hint_text [] (d ∷ ds) = refl
is_empty-hint_text (r ∷ rs) ds = refl

is_empty-map {ℓ} : {A B : Type ℓ} (f : A → B) (xs : List A) → is_empty (map f xs) ≡ is_empty xs
is_empty-map f [] = refl
is_empty-map f (x ∷ xs) = refl

is_empty-append {ℓ} :
    {A : Type ℓ} (xs ys : List A) → is_empty (xs ++ ys) ≡ is_empty xs && is_empty ys
is_empty-append [] ys = refl
is_empty-append (x ∷ xs) ys = refl

runs_in-keys :
    (found : Option Runs) (ks : Option (List Text))
    → IsStep found ks
    → (is_empty (runs_in (or_empty found) (or_empty ks)) ≡ true) ↔ (found ≡ none)
unfolding runs_in lookup
runs_in-keys none none h = (λ _. refl, λ _. refl)
runs_in-keys none (some ks) h = elim h [ ]
runs_in-keys (some runs) none h = elim h [ ]
runs_in-keys (some []) (some ks) h = ground arith
runs_in-keys (some ((k, v) ∷ runs)) (some ks) h =
    let e : lookup Text-discrete k ((k, v) ∷ runs) ≡ some v = ground arith in
    rw h.0 (rw (e, runs_in) (ground arith))

is_empty-filter :
    {A : Type 0} (p : A → Bool) (xs : List A)
    → (is_empty (filter p xs) ≡ true) ↔ All (λ x. p x ≡ false) xs
is_empty-filter p [] = (λ _. tt, λ _. refl)
is_empty-filter p (x ∷ xs) = ground (arith, is_empty-filter p xs)

-- The prompt is told nothing exactly when the channel has no run and each of its kept finished runs
-- ended more than five minutes ago.
pub in_flight_hint-nil :
    (s : Registry) (channel now : ℕ)
    → IsSound s
    → (is_empty (in_flight_hint s channel now).0 ≡ true) ↔ (
        (lookup ℕ_discrete channel s.in_flight ≡ none)
        × All (λ d. is_recent now d ≡ false) (recent_of s channel))
unfolding in_flight_hint
in_flight_hint-nil s channel now h =
    let found = lookup ℕ_discrete channel s.in_flight in
    let ks = lookup ℕ_discrete channel s.order in
    let runs = runs_in (or_empty found) (or_empty ks) in
    let kept = filter (is_recent now) (recent_of s channel) in
    ground (
      arith,
      is_empty-hint_text (map (running_line now) runs) (map (done_line now) kept),
      is_empty-append (map (running_line now) runs) (map (done_line now) kept),
      is_empty-map (running_line now) runs,
      is_empty-map (done_line now) kept,
      runs_in-keys found ks (h.step channel),
      is_empty-filter (is_recent now) (recent_of s channel),
    )
