-- ===== src/History/Budget.antt =====
-- The token budget of history_policy.py.
use native.Mathlib.Decide.{dec_lt}
use discord_chat_bot.Prelude.{
  ℕ, zero, suc, ◌+◌, ◌-◌, ◌*◌, ◌/◌, ◌≤◌, ◌<◌, ◌≡◌, ◌≢◌, ◌↔◌, ◌⊎◌, ap, refl, Option, none, some,
  List, [], ◌∷◌, ◌++◌, ℤ, pos, negsuc, ltb, length, sum, drop, take, Bool-cases, ltb→lt, inl, inr,
  arith,
}
use discord_chat_bot.History.{
  Content, estimate_tokens, history_budget, drop_loop, trim_count, message_overhead_tokens,
}

-- The loop stops at the first suffix of the groups that fits.
record Trims (total budget : ℕ) (groups : List ℕ) (start stop : ℕ) : Type 0 where
  dropped : ℕ
  counts : stop ≡ start + dropped
  within : dropped ≤ length groups
  fits : dropped < length groups → total - sum (take dropped groups) ≤ budget
  needed : (k : ℕ) → k < dropped → budget < total - sum (take k groups)

needed_suc :
    (total budget g : ℕ) (groups : List ℕ) (dropped : ℕ)
    → ((k : ℕ) → k < dropped → budget < total - g - sum (take k groups))
    → budget < total
    → (k : ℕ) → k < suc dropped
    → budget < total - sum (take k (g ∷ groups))
needed_suc total budget g groups dropped h over zero lt = omega arith
needed_suc total budget g groups dropped h over (suc k) lt = omega (arith, h k (omega arith))

drop_loop-Trims :
    (total budget : ℕ) (groups : List ℕ) (start : ℕ)
    → Trims total budget groups start (drop_loop total budget groups start)
unfolding drop_loop
drop_loop-Trims total budget [] start = record {
  dropped = 0;
  counts = omega arith;
  within = omega arith;
  fits = λ h. absurd (omega arith);
  needed = λ k h. absurd (omega arith);
}
drop_loop-Trims total budget (g ∷ groups) start = elim (Bool-cases (ltb budget total)) [
  | inl over ↦ rw over (
      let r = drop_loop-Trims (total - g) budget groups (start + 1) in
      record {
        dropped = suc r.dropped;
        counts = omega (arith, r.counts);
        within = omega (arith, r.within);
        fits = λ h. omega (arith, r.fits (omega arith));
        needed = needed_suc total budget g groups r.dropped r.needed (ltb→lt _ _ over);
      })
  | inr fits ↦ rw fits (record {
    dropped = 0;
    counts = omega arith;
    within = omega arith;
    fits = λ h. ground arith;
    needed = λ k h. absurd (omega arith);
  })
]

sum-take-drop : (k : ℕ) (xs : List ℕ) → sum xs ≡ sum (take k xs) + sum (drop k xs)
sum-take-drop zero xs = omega arith
sum-take-drop (suc k) [] = refl
sum-take-drop (suc k) (x ∷ xs) = omega (arith, sum-take-drop k xs)

-- what is sent when the `k` oldest groups are dropped
abbrev pub sent : List ℕ → ℕ → ℕ → ℕ
sent groups fixed k = fixed + sum (drop k groups)

module _ (groups : List ℕ) (fixed budget n : ℕ)
    (r : Trims (fixed + sum groups) budget groups 0 n) where
  trims_eq : n ≡ r.dropped
  trims_eq = omega (arith, r.counts)

  trims_fit : (n ≤ length groups) × ((n ≡ length groups) ⊎ (sent groups fixed n ≤ budget))
  trims_fit = elim (dec_lt r.dropped (length groups)) [
    | yes p ↦ (
      omega (arith, trims_eq),
      inr (omega (arith, r.fits p, ap (λ k. sum (take k groups)) trims_eq, sum-take-drop n groups)),
    )
    | no p ↦ (omega (arith, trims_eq, r.within), inl (omega (arith, trims_eq, r.within)))
  ]

  trims_least : (k : ℕ) → k < n → budget < sent groups fixed k
  trims_least k h = omega (arith, r.needed k (omega (arith, trims_eq)), sum-take-drop k groups)

-- With a budget, either what is sent fits it or every group is dropped.
trim_count-fits :
    (groups : List ℕ) (fixed budget : ℕ)
    → (trim_count groups fixed (some budget) ≤ length groups)
      × ((trim_count groups fixed (some budget) ≡ length groups)
          ⊎ (sent groups fixed (trim_count groups fixed (some budget)) ≤ budget))
unfolding trim_count
trim_count-fits groups fixed budget =
    trims_fit groups fixed budget _ (drop_loop-Trims (fixed + sum groups) budget groups 0)

-- No more groups are dropped than needed: every smaller count is over the budget.
trim_count-least :
    (groups : List ℕ) (fixed budget k : ℕ)
    → k < trim_count groups fixed (some budget)
    → budget < sent groups fixed k
unfolding trim_count
trim_count-least groups fixed budget =
    trims_least groups fixed budget _ (drop_loop-Trims (fixed + sum groups) budget groups 0)

-- With a budget, trimming drops the fewest groups that make what is sent fit it: what is sent fits, or
-- every group is dropped, and each smaller count is over the budget.
pub trim_count_lem :
    (groups : List ℕ) (fixed budget : ℕ)
    → (trim_count groups fixed (some budget) ≤ length groups)
      × ((trim_count groups fixed (some budget) ≡ length groups)
          ⊎ (sent groups fixed (trim_count groups fixed (some budget)) ≤ budget))
      × ((k : ℕ) → k < trim_count groups fixed (some budget) → budget < sent groups fixed k)
trim_count_lem groups fixed budget =
    let (bound, fits) = trim_count-fits groups fixed budget in
    (bound, fits, trim_count-least groups fixed budget)

-- A budget is given exactly for a capacity that is a positive number.
pub history_budget-none :
    (o : Option ℤ) (reserve : ℕ)
    → (history_budget o reserve ≡ none) ↔ ((n : ℕ) → o ≢ some (pos (suc n)))
unfolding history_budget
history_budget-none none reserve = (λ h n. λ e. cc, λ h. refl)
history_budget-none (some (negsuc m)) reserve = (λ h n. λ e. cc, λ h. refl)
history_budget-none (some (pos zero)) reserve = (λ h n. λ e. cc, λ h. refl)
history_budget-none (some (pos (suc m))) reserve =
    (λ h n. λ e. ground arith, λ h. absurd (h m refl))

-- It is at most the capacity, and leaves the reserve free unless the reserve would take it all.
pub history_budget_bounds :
    (o : Option ℤ) (reserve b : ℕ)
    → history_budget o reserve ≡ some b
    → (n : ℕ) × (o ≡ some (pos n)) × (b ≤ n) × ((b + reserve ≡ n) ⊎ ((n ≤ reserve) × (b ≡ n / 2)))
unfolding history_budget
history_budget_bounds none reserve b h = cc
history_budget_bounds (some (negsuc m)) reserve b h = cc
history_budget_bounds (some (pos zero)) reserve b h = cc
history_budget_bounds (some (pos (suc m))) reserve b h = (suc m, refl, ground arith, ground arith)

-- The estimate of a conversation is the sum over its parts, in any cut, and counts at least the
-- wrapping of each entry.
pub estimate_tokens-append :
    (xs ys : List Content)
    → (estimate_tokens (xs ++ ys) ≡ estimate_tokens xs + estimate_tokens ys)
      × (message_overhead_tokens * length xs ≤ estimate_tokens xs)
unfolding estimate_tokens
estimate_tokens-append [] ys = (omega arith, omega arith)
estimate_tokens-append (x ∷ xs) ys =
    let (a, b) = estimate_tokens-append xs ys in (omega (arith, a), omega (arith, b))
