-- ===== src/Guard/Ends.antt =====
-- The loop that asks the moderation endpoint: that it ends, and when it blocks.
use discord_chat_bot.Prelude.{
  ℕ, zero, suc, ◌+◌, ◌≤◌, ◌<◌, ◌≡◌, ◌⊎◌, inl, inr, refl, Bool, true, false, not, Option, none, some,
  ◌==◌, Bool-cases, arith,
}
use discord_chat_bot.Guard.{
  Settings, Result, is_unsafe, FirstResult, Outcome, network_failure, response, delay, Answer,
  failed_open, Moderated, allows, answer_of, tries_again, ask_endpoint,
}

not-false : (b : Bool) → not b ≡ false → b ≡ true
not-false b h = ground arith

-- the endpoint's response to an attempt judges the text as unsafe
unfoldable pub IsUnsafe : Outcome → Type 0
IsUnsafe network_failure = ⊥
IsUnsafe (response status first after) =
    (status ≡ 200) × ((r : Option Result) × (first ≡ some r) × (is_unsafe r ≡ true))

-- The loop's end: within its retries, and blocked only by a response that judges so.
unfoldable pub EndsFrom : Settings → (ℕ → Outcome) → ℕ → Moderated → Type 0
EndsFrom settings endpoint attempt m =
    (attempt < m.posts)
    × (m.posts ≤ settings.max_retries + 1)
    × ((allows m.answer ≡ true) ⊎ ((k : ℕ) × (k < m.posts) × IsUnsafe (endpoint k)))

answer_of-blocks :
    (first : FirstResult)
    → (allows (answer_of first) ≡ true)
      ⊎ ((r : Option Result) × (first ≡ some r) × (is_unsafe r ≡ true))
unfolding answer_of
answer_of-blocks none = inl refl
answer_of-blocks (some r) = elim (Bool-cases (is_unsafe r)) [
  | inl e ↦ inr (r, refl, e)
  | inr e ↦ inl (rw e refl)
]

Outcome-cases :
    (o : Outcome)
    → (o ≡ network_failure)
      ⊎ ((status : ℕ) × (first : FirstResult) × (after : Option ℕ) × (o
            ≡ response status first after))
Outcome-cases network_failure = inl refl
Outcome-cases (response status first after) = inr (status, first, after, refl)

-- the answer of a response with the status 200
final :
    (o : Outcome) (status : ℕ) (first : FirstResult) (after : Option ℕ)
    → o ≡ response status first after
    → (status == 200) ≡ true
    → (allows (answer_of first) ≡ true) ⊎ IsUnsafe o
unfolding IsUnsafe
final o status first after e h = elim (answer_of-blocks first) [
  | inl a ↦ inl a
  | inr r ↦ inr (rw e (ground (arith, h), r))
]

module _ (settings : Settings) (endpoint : ℕ → Outcome) where
  stops :
      (attempt slept : ℕ) (answer : Answer)
      → attempt ≤ settings.max_retries
      → (allows answer ≡ true) ⊎ IsUnsafe (endpoint attempt)
      → EndsFrom settings endpoint attempt
          (record { answer = answer; posts = attempt + 1; slept = slept })
  unfolding EndsFrom
  stops attempt slept answer a (inl h) = (omega arith, omega (arith, a), inl h)
  stops attempt slept answer a (inr h) =
      (omega arith, omega (arith, a), inr (attempt, omega arith, h))

  EndsFrom-earlier :
      (attempt : ℕ) (m : Moderated)
      → EndsFrom settings endpoint (attempt + 1) m
      → EndsFrom settings endpoint attempt m
  unfolding EndsFrom
  EndsFrom-earlier attempt m h = (omega (arith, h.0), h.1, h.2)

  retried :
      (status attempt : ℕ)
      → tries_again settings status attempt ≡ true
      → attempt + 1 ≤ settings.max_retries
  unfolding tries_again
  retried status attempt h = ground arith

  -- With more fuel than retries the loop ends, within them, and only a response that judges the
  -- text as unsafe blocks it.
  pub ask_endpoint-ends :
      (fuel attempt slept : ℕ)
      → attempt ≤ settings.max_retries
      → settings.max_retries < attempt + fuel
      → (m : Moderated) × (ask_endpoint settings endpoint fuel attempt slept ≡ some m)
        × EndsFrom settings endpoint attempt m
  unfolding ask_endpoint
  ask_endpoint-ends zero attempt slept a b = absurd (omega (arith, a, b))
  ask_endpoint-ends (suc fuel) attempt slept a b = elim (Outcome-cases (endpoint attempt)) [
    | inl e ↦ (_, rw (ask_endpoint, e) refl, stops attempt slept failed_open a (inl refl))
    | inr (status, first, after, e) ↦ elim (Bool-cases (status == 200)) [
      | inl ok ↦ (
        _,
        rw (ask_endpoint, e, ok) refl,
        stops attempt slept (answer_of first) a (final (endpoint attempt) status first after e ok),
      )
      | inr other ↦ elim (Bool-cases (tries_again settings status attempt)) [
        | inr stop ↦ (
          _,
          rw (ask_endpoint, e, other, stop) refl,
          stops attempt slept failed_open a (inl refl),
        )
        | inl more ↦
            let (m, q, h) =
              ask_endpoint-ends fuel (attempt + 1) (slept + delay settings after attempt)
                (retried status attempt more) (omega (arith, b)) in
            (m, rw (ask_endpoint, e, other, more) q, EndsFrom-earlier attempt m h)
      ]
    ]
  ]
