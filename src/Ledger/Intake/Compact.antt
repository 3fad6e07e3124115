-- ===== src/Ledger/Intake/Compact.antt =====
-- The bound on the retained record, and `_compact`.
use discord_chat_bot.Prelude.{
  ℕ, ◌+◌, ◌-◌, ◌≤◌, ◌<◌, min, ◌≡◌, refl, Bool, true, false, ◌&&◌, List, [], ◌∷◌, ◌++◌, ltb, ◌==◌,
  length, all, filter, All, Bool-cases, ◌⊎◌, inl, inr, arith,
}
use discord_chat_bot.Ledger.{
  is_resolved, ThreadEvent, RunLedger, is_unresolved, max_retained_events,
}
use discord_chat_bot.Ledger.Intake.{compact_from, compact}

abbrev pub kept : ℕ → List ThreadEvent → List ThreadEvent
kept n es = (compact_from n es).0

drops : ℕ → ThreadEvent → Bool
drops n e = ltb 0 n && is_resolved e.stage

kept_drop :
    (n : ℕ) (e : ThreadEvent) (es : List ThreadEvent)
    → drops n e ≡ true
    → (kept n (e ∷ es) ≡ kept (n - 1) es) × (0 < n) × (is_resolved e.stage ≡ true)
unfolding compact_from drops
kept_drop n e es h = ground arith

kept_stay :
    (n : ℕ) (e : ThreadEvent) (es : List ThreadEvent)
    → drops n e ≡ false
    → (kept n (e ∷ es) ≡ e ∷ kept n es) × ((n ≡ 0) ⊎ (is_resolved e.stage ≡ false))
unfolding compact_from drops
kept_stay n e es h = ground arith

-- Events are numbered upwards, above `lo` and up to `hi`.
abbrev pub Numbered : ℕ → List ThreadEvent → ℕ → Type 0
Numbered lo [] hi = lo ≤ hi
Numbered lo (e ∷ es) hi = (lo < e.seq) × Numbered e.seq es hi

pub Numbered-lower :
    (lo lo' : ℕ) (es : List ThreadEvent) (hi : ℕ)
    → lo' ≤ lo
    → Numbered lo es hi
    → Numbered lo' es hi
Numbered-lower lo lo' [] hi h n = omega arith
Numbered-lower lo lo' (e ∷ es) hi h n = (omega arith, n.1)

pub Numbered-push :
    (lo : ℕ) (es : List ThreadEvent) (hi : ℕ) (e : ThreadEvent)
    → e.seq ≡ hi + 1
    → Numbered lo es hi
    → Numbered lo (es ++ e ∷ []) (hi + 1)
Numbered-push lo [] hi e q n = omega arith
Numbered-push lo (d ∷ es) hi e q n = (n.0, Numbered-push d.seq es hi e q n.1)

pub kept-Numbered :
    (n lo : ℕ) (es : List ThreadEvent) (hi : ℕ) → Numbered lo es hi → Numbered lo (kept n es) hi
unfolding compact_from
kept-Numbered n lo [] hi h = h
kept-Numbered n lo (e ∷ es) hi h = elim (Bool-cases (drops n e)) [
  | inl out ↦ rw (kept_drop n e es out).0 (
      Numbered-lower e.seq lo (kept (n - 1) es) hi (omega arith)
        (kept-Numbered (n - 1) e.seq es hi h.1))
  | inr stays ↦ rw (kept_stay n e es stays).0 (h.0, kept-Numbered n e.seq es hi h.1)
]

pub kept-All :
    (P : ThreadEvent → Type 0) (n : ℕ) (es : List ThreadEvent) → All P es → All P (kept n es)
unfolding compact_from
kept-All P n [] h = tt
kept-All P n (e ∷ es) h = elim (Bool-cases (drops n e)) [
  | inl out ↦ rw (kept_drop n e es out).0 (kept-All P (n - 1) es h.1)
  | inr stays ↦ rw (kept_stay n e es stays).0 (h.0, kept-All P n es h.1)
]

-- What a predicate selects that holds of no resolved event is left as it is.
pub filter-kept :
    (p : ThreadEvent → Bool) (n : ℕ) (es : List ThreadEvent)
    → ((e : ThreadEvent) → is_resolved e.stage ≡ true → p e ≡ false)
    → filter p (kept n es) ≡ filter p es
unfolding compact_from
filter-kept p n [] h = refl
filter-kept p n (e ∷ es) h = elim (Bool-cases (drops n e)) [
  | inl out ↦ ground (arith, kept_drop n e es out, h e, filter-kept p (n - 1) es h)
  | inr stays ↦ ground (arith, kept_stay n e es stays, filter-kept p n es h)
]

-- As many are dropped as are over the bound, if so many are resolved.
pub length-kept :
    (n : ℕ) (es : List ThreadEvent)
    → length (kept n es) + min n (length (filter (λ e. is_resolved e.stage) es)) ≡ length es
unfolding compact_from
length-kept n [] = omega arith
length-kept n (e ∷ es) = elim (Bool-cases (drops n e)) [
  | inl out ↦ ground (arith, kept_drop n e es out, length-kept (n - 1) es)
  | inr stays ↦ ground (arith, kept_stay n e es stays, length-kept n es)
]

module _ (l : RunLedger) where
  compact_cases :
      ((compact l).events ≡ l.events)
      ⊎ ((compact l).events ≡ kept (length l.events - max_retained_events) l.events)
  unfolding compact
  compact_cases = elim (Bool-cases (length l.events - max_retained_events == 0)) [
    | inl fits ↦ inl (rw (fits, compact))
    | inr over ↦ inr (rw (over, compact))
  ]

  pub compact-Numbered : Numbered 0 l.events l.revision → Numbered 0 (compact l).events l.revision
  compact-Numbered h = elim compact_cases [
    | inl e ↦ rw e h
    | inr e ↦ rw e (kept-Numbered (length l.events - max_retained_events) 0 l.events l.revision h)
  ]

  pub compact-All : (P : ThreadEvent → Type 0) → All P l.events → All P (compact l).events
  compact-All P h = elim compact_cases [
    | inl e ↦ rw e h
    | inr e ↦ rw e (kept-All P (length l.events - max_retained_events) l.events h)
  ]

  -- What a predicate selects that holds of no resolved event stays through a compaction.
  pub filter-compact :
      (p : ThreadEvent → Bool)
      → ((e : ThreadEvent) → is_resolved e.stage ≡ true → p e ≡ false)
      → filter p (compact l).events ≡ filter p l.events
  filter-compact p h = elim compact_cases [
    | inl e ↦ rw e
    | inr e ↦ rw e (filter-kept p (length l.events - max_retained_events) l.events h)
  ]

  -- A record that is one over the bound, and holds a resolved event, comes down to the bound.
  pub length-compact :
      length l.events ≤ max_retained_events + 1
      → (max_retained_events < length l.events
          → 0 < length (filter (λ e. is_resolved e.stage) l.events))
      → length (compact l).events ≤ max_retained_events
  unfolding compact
  length-compact h k =
      ground (arith, k, length-kept (length l.events - max_retained_events) l.events)

  pub compact_keeps :
      ((compact l).revision ≡ l.revision)
      × ((compact l).follow_ups ≡ l.follow_ups)
      × ((compact l).state ≡ l.state)
  unfolding compact
  compact_keeps = ground arith

-- Where some event is resolved, the count of those is not 0.
pub resolved_pos :
    (es : List ThreadEvent)
    → all is_unresolved es ≡ false
    → 0 < length (filter (λ e. is_resolved e.stage) es)
unfolding is_unresolved
resolved_pos [] h = cc
resolved_pos (e ∷ es) h = ground (arith, resolved_pos es)
