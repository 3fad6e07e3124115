-- ===== src/Schedule/Next.antt =====
-- next_run and following_run of core/classes/automation_policy.py.
use native.Mathlib.Nat.{lt-mul-div-succ, mul-div-le}
use discord_chat_bot.Prelude.{
  ℕ, ◌+◌, ◌-◌, ◌*◌, ◌/◌, ◌≤◌, ◌<◌, ◌≡◌, ◌⊎◌, inl, inr, refl, sym, ap, ap₂, subst, ==_iff, ◌∙◌, true,
  false, Option, none, some, zero, suc, ltb, ◌==◌, Option-cases, Bool-cases, arith,
}
use discord_chat_bot.Schedule.{
  second, hour, Wall, Zone, Stamp, aware, naive, span_hours, Timing, once, interval, daily, weekly,
  ok, same_wall, weekday_of, when_after, exists, clock_wall, local_occurrence, is_wanted, run_on,
  search_days, next_day, next_once, next_on_grid, next_run, start_of, following_after,
  following_run, grace,
}

module _ (start step after : ℕ) (h : 0 < step) where
  -- The slot is on the grid, later than `after`, and no slot between is.
  pub next_on_grid_lem :
      ((k : ℕ) × (next_on_grid start step after ≡ start + step * k))
      × (after < next_on_grid start step after)
      × ((start ≡ next_on_grid start step after) ⊎ (next_on_grid start step after ≤ after + step))
  unfolding next_on_grid
  next_on_grid_lem = elim (Bool-cases (ltb after start)) [
    | inl e ↦ rw (e, next_on_grid) ((0, omega arith), ground arith, inl refl)
    | inr e ↦
        let upper = lt-mul-div-succ (after - start) h in
        let lower = mul-div-le (after - start) step in
        let later : start ≤ after = ground arith in
        rw (e, next_on_grid)
          (
            ((after - start) / step + 1, refl),
            omega (arith, upper, later),
            inr (grind (arith, lower, later)),
          )
  ]

not_zero : (n : ℕ) → (n == 0) ≡ false → 0 < n
not_zero n h = ground arith

module _ (zone : Zone) where
  -- A run on a day is at the wall time asked for, on a day asked for, and later than `after`.
  IsRun : Option ℕ → ℕ → ℕ → ℕ → ℕ → ℕ → Type 0
  IsRun weekday h m after day value =
      (zone.wall value ≡ clock_wall day h m) × (is_wanted weekday day ≡ true) × (after < value)

  same_wall_lem : (v w : Wall) → same_wall v w ≡ true → v ≡ w
  same_wall_lem v w h =
      let wall_at : ℕ → ℕ → Wall = λ d t. record { day = d; time = t } in
      ap₂ wall_at (ground arith) (ground arith)

  run_on-IsRun :
      (weekday : Option ℕ) (h m after day value : ℕ)
      → run_on zone weekday h m after day ≡ some value
      → IsRun weekday h m after day value
  unfolding run_on local_occurrence IsRun
  run_on-IsRun weekday h m after day value e =
      let w = clock_wall day h m in
      elim (Bool-cases (is_wanted weekday day)) [
        | inl a ↦ elim (Bool-cases (exists zone w)) [
          | inl b ↦ elim (Bool-cases (ltb after (zone.utc w))) [
            | inl c ↦
                let found : zone.utc w ≡ value = ground arith in
                (rw (sym found) (same_wall_lem (zone.wall (zone.utc w)) w b), a, ground arith)
            | inr c ↦ ground arith
          ]
          | inr b ↦ ground arith
        ]
        | inr a ↦ ground arith
      ]

  search_days-IsRun :
      (weekday : Option ℕ) (h m after left day value : ℕ)
      → search_days zone weekday h m after left day ≡ some value
      → (d : ℕ) × IsRun weekday h m after d value
  unfolding search_days
  search_days-IsRun weekday h m after zero day value e = ground arith
  search_days-IsRun weekday h m after (suc left) day value e =
      elim (Option-cases (run_on zone weekday h m after day)) [
        | inl n ↦ search_days-IsRun weekday h m after left (day + 1) value (ground arith)
        | inr (v, n) ↦ (day, run_on-IsRun weekday h m after day value (ground arith))
      ]

  after_run : (value after v : ℕ) → when_after value after ≡ some v → (value ≡ v) × (after < v)
  after_run value after v e = elim (Bool-cases (ltb after value)) [
    | inl a ↦ (ground arith, ground arith)
    | inr a ↦ ground arith
  ]

  next_day-IsRun :
      (weekday : Option ℕ) (h m after : ℕ) (value : Option ℕ)
      → next_day zone weekday h m after ≡ ok value
      → (v : ℕ) × (value ≡ some v) × ((d : ℕ) × IsRun weekday h m after d v)
  unfolding next_day
  next_day-IsRun weekday h m after value e =
      elim (Option-cases (search_days zone weekday h m after 9 (zone.wall after).day)) [
        | inl n ↦ ground arith
        | inr (v, n) ↦
            (v, ground arith, search_days-IsRun weekday h m after 9 (zone.wall after).day v n)
      ]

  next_once-later :
      (at : Stamp) (after value : ℕ) → next_once zone at after ≡ ok (some value) → after < value
  unfolding next_once
  next_once-later (aware t) after value e = (after_run t after value (ground arith)).1
  next_once-later (naive w) after value e = elim (Bool-cases (exists zone w)) [
    | inl a ↦ (after_run (zone.utc w) after value (ground arith)).1
    | inr a ↦ ground arith
  ]

  next_day-later :
      (weekday : Option ℕ) (h m after value : ℕ)
      → next_day zone weekday h m after ≡ ok (some value)
      → (d : ℕ) × IsRun weekday h m after d value
  next_day-later weekday h m after value e =
      let (v, same, (d, run)) = next_day-IsRun weekday h m after (some value) e in
      let q : v ≡ value = ground arith in (d, subst (λ x. IsRun weekday h m after d x) q run)

  -- Every next run is later than the instant asked from.
  pub next_run-later :
      (timing : Timing) (after value : ℕ)
      → next_run zone timing after ≡ ok (some value)
      → after < value
  unfolding next_run IsRun
  next_run-later (once at) after value e = next_once-later at after value e
  next_run-later (interval every span start) after value e =
      let step = every * span_hours span * hour in
      elim (Bool-cases (every * span_hours span == 0)) [
        | inl a ↦ ground arith
        | inr a ↦
            let positive : 0 < step = omega (arith, not_zero (every * span_hours span) a) in
            let grid = next_on_grid_lem (start_of zone start after) step after positive in
            ground (arith, grid.1)
      ]
  next_run-later (daily h m) after value e =
      let (d, run) = next_day-later none h m after value e in run.2
  next_run-later (weekly weekday h m) after value e = elim (Bool-cases (ltb weekday 7)) [
    | inl a ↦ let (d, run) = next_day-later (some weekday) h m after value (ground arith) in run.2
    | inr a ↦ ground arith
  ]

  IsRun-weekly :
      (weekday h m after d value : ℕ)
      → IsRun (some weekday) h m after d value
      → (weekday_of (zone.wall value).day ≡ weekday)
        × ((zone.wall value).time ≡ (h * 60 + m) * 60 * second)
  unfolding IsRun
  IsRun-weekly weekday h m after d value run =
      let day : (zone.wall value).day ≡ d = ap (λ w. w.day) run.0 in
      let wanted : weekday_of d ≡ weekday = (==_iff (weekday_of d) weekday).0 run.1 in
      (ap weekday_of day ∙ wanted, ap (λ w. w.time) run.0)

  -- A weekly run is on the weekday asked for, at the wall time asked for.
  pub next_run-weekly :
      (weekday h m after value : ℕ)
      → next_run zone (weekly weekday h m) after ≡ ok (some value)
      → (weekday_of (zone.wall value).day ≡ weekday)
        × ((zone.wall value).time ≡ (h * 60 + m) * 60 * second)
  unfolding next_run
  next_run-weekly weekday h m after value e = elim (Bool-cases (ltb weekday 7)) [
    | inl a ↦
        let (d, run) = next_day-later (some weekday) h m after value (ground arith) in
        IsRun-weekly weekday h m after d value run
    | inr a ↦ ground arith
  ]

  -- The run after one that was due at `occurrence` is later than it and than now, and starts the
  -- minimum gap after that run started, less the grace.
  pub following_run-later :
      (timing : Timing) (occurrence started now min_hours value : ℕ)
      → following_run zone timing occurrence started now min_hours ≡ ok (some value)
      → (occurrence < value) × (now < value) × (started + min_hours * hour ≤ value + grace)
  unfolding following_run following_after
  following_run-later timing occurrence started now min_hours value e =
      let later =
        next_run-later timing (following_after occurrence started now min_hours) value e in
      (omega (arith, later), omega (arith, later), omega (arith, later))
