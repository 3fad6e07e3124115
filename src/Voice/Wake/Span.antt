-- ===== src/Voice/Wake/Span.antt =====
-- The word at which match_wake of core/classes/voice_policy.py ends the wake phrase.
use discord_chat_bot.Prelude.{
  ℕ, ◌+◌, ◌-◌, ◌≤◌, ◌<◌, ◌≡◌, inl, inr, false, ◌||◌, Option, none, some, List, [], ◌∷◌, zero, suc,
  ltb, ◌==◌, length, take, drop, min, Bool-cases, arith,
}
use discord_chat_bot.Text.{Text}
use discord_chat_bot.Voice.Wake.{
  no_score, is_better, is_below_threshold, similar, Best, try_span, try_spans, try_starts, wake_end,
  max_leading_words,
}

-- An end that is found is after a word of the utterance.
abbrev IsInside : List Text → Best → Type 0
IsInside heard best = (n : ℕ) → best.end ≡ some n → (0 < n) × (n ≤ length heard)

fits :
    (size words start n : ℕ)
    → (ltb size 1 || ltb words (start + size)) ≡ false
    → ◌≡◌ {A = Option ℕ} (some (start + size)) (some n)
    → (0 < n) × (n ≤ words)
fits size words start n e p = ground arith

try_span-IsInside :
    (heard target : List Text) (start size : ℕ) (best : Best)
    → IsInside heard best
    → IsInside heard (try_span heard target start size best)
unfolding try_span
try_span-IsInside heard target start size best h =
    let score = similar (take size (drop start heard)) target (start == 0) in
    elim (Bool-cases (ltb size 1 || ltb (length heard) (start + size))) [
      | inl e ↦ rw (e, try_span) h
      | inr e ↦ elim (Bool-cases (is_better score best.score)) [
        | inl q ↦ rw (e, try_span, q) (λ n p. fits size (length heard) start n e p)
        | inr q ↦ rw (e, try_span, q) h
      ]
    ]

try_starts-IsInside :
    (heard target : List Text) (left start : ℕ) (best : Best)
    → IsInside heard best
    → IsInside heard (try_starts heard target left start best)
unfolding try_starts
try_starts-IsInside heard target zero start best h = h
try_starts-IsInside heard target (suc left) start best h =
    let n = length target in
    let b = try_span heard target start n best in
    let c = try_span heard target start (n - 1) b in
    try_starts-IsInside heard target left (start + 1) (try_spans heard target start best) (
      try_span-IsInside heard target start (n + 1) c (
        try_span-IsInside heard target start (n - 1) b
          (try_span-IsInside heard target start n best h)))

-- The phrase that is heard ends after one of the utterance's words.
pub wake_end-bounds :
    (heard target : List Text) (n : ℕ)
    → wake_end heard target ≡ some n
    → (0 < n) × (n ≤ length heard)
unfolding wake_end
wake_end-bounds heard [] n e = ground arith
wake_end-bounds heard (t ∷ ts) n e =
    let turns = min max_leading_words (length heard) + 1 in
    let first : Best = record { score = no_score; end = none } in
    let best = try_starts heard (t ∷ ts) turns 0 first in
    let inside = try_starts-IsInside heard (t ∷ ts) turns 0 first (λ k p. ground arith) in
    elim (Bool-cases (is_below_threshold best.score)) [
      | inl q ↦ ground arith
      | inr q ↦ inside n (ground arith)
    ]
