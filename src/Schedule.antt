-- ===== src/Schedule.antt =====
-- core/classes/automation_policy.py: when a schedule runs next. An instant is in microseconds of
-- UTC. Of zoneinfo and datetime the code takes a zone's conversions between instants and wall
-- times, which a `Zone` holds; the texts of times are read before. A day is its number, counted from
-- 1970-01-01, which was a Thursday.
pub mod Next
pub mod Follow
use discord_chat_bot.Prelude.{
  ℕ, ◌+◌, ◌-◌, ◌*◌, ◌/◌, ◌%◌, Bool, true, false, ◌&&◌, Option, none, some, List, [], ◌∷◌, zero, suc,
  ltb, leb, ◌==◌, if◌then◌else◌, filter, max,
}

abbrev pub second : ℕ
second = 1_000_000

abbrev pub hour : ℕ
hour = 3600 * second

-- a day, and the microseconds since its midnight
pub record Wall : Type 0 where
  pub day : ℕ
  pub time : ℕ

-- `utc` is `astimezone(UTC)` of the wall time with fold=0, `wall` is `astimezone(zone)`.
pub record Zone : Type 0 where
  pub utc : Wall → ℕ
  pub wall : ℕ → Wall

-- What `datetime.fromisoformat` reads: with an offset, or without.
pub data Stamp : Type 0 where
  aware : ℕ → Stamp
  naive : Wall → Stamp

pub data Span : Type 0 where
  hours : Span
  days : Span
  weeks : Span

-- Clocks are hours and minutes, weekdays are counted from Monday, 0.
pub data Timing : Type 0 where
  once : Stamp → Timing
  interval : ℕ → Span → Option Stamp → Timing
  daily : ℕ → ℕ → Timing
  weekly : ℕ → ℕ → ℕ → Timing

-- The functions' ValueErrors.
pub data Failure : Type 0 where
  no_such_time : Failure
  not_positive : Failure
  invalid_weekday : Failure
  no_occurrence : Failure
  not_future : Failure
  too_close : Failure
  too_long : Failure

pub data Result {ℓ} (A : Type ℓ) : Type ℓ where
  error : Failure → Result A
  ok : A → Result A

abbrev pub span_hours : Span → ℕ
span_hours hours = 1
span_hours days = 24
span_hours weeks = 168

abbrev pub same_wall : Wall → Wall → Bool
same_wall v w = v.day == w.day && v.time == w.time

-- Monday is 0
abbrev pub weekday_of : ℕ → ℕ
weekday_of day = (day + 3) % 7

-- `value if value > after else None`
abbrev pub when_after : ℕ → ℕ → Option ℕ
when_after value after = if ltb after value then some value else none

abbrev pub clock_wall : ℕ → ℕ → ℕ → Wall
clock_wall day h m = record { day = day; time = (h * 60 + m) * 60 * second }

abbrev pub is_wanted : Option ℕ → ℕ → Bool
is_wanted none day = true
is_wanted (some weekday) day = weekday_of day == weekday

-- the first instant of the grid later than `after`
unfoldable pub next_on_grid : ℕ → ℕ → ℕ → ℕ
next_on_grid start step after =
    if ltb after start then start else start + step * ((after - start) / step + 1)

abbrev pub grace : ℕ
grace = 900 * second

-- the instant that the following run is later than
unfoldable pub following_after : ℕ → ℕ → ℕ → ℕ → ℕ
following_after occurrence started now min_hours =
    max (max occurrence (started + min_hours * hour - grace - 1)) now

unfoldable pub anchor_timing : Timing → ℕ → Timing
anchor_timing (interval every span none) now = interval every span (some (aware now))
anchor_timing timing now = timing

abbrev pub longest_gap : Timing → Option ℕ
longest_gap (daily h m) = some 24
longest_gap (weekly weekday h m) = some 168
longest_gap timing = none

abbrev pub exceeds : ℕ → Option ℕ → Bool
exceeds min_hours none = false
exceeds min_hours (some gap) = ltb gap min_hours

-- the first two runs of a repeating schedule
unfoldable pub check_gap : Timing → ℕ → ℕ → ℕ → Result ℕ
check_gap timing min_hours value later =
    if ltb later (value + min_hours * hour)
    then error too_close
    else if exceeds min_hours (longest_gap timing)
    then error too_long
    else ok value

module _ (zone : Zone) where
  -- a stamp without an offset is a wall time
  abbrev pub instant_of : Stamp → ℕ
  instant_of (aware t) = t
  instant_of (naive w) = zone.utc w

  -- the wall time is one that the zone's clocks show
  abbrev pub exists : Wall → Bool
  exists w = same_wall (zone.wall (zone.utc w)) w

  unfoldable pub local_occurrence : ℕ → ℕ → ℕ → Option ℕ
  local_occurrence day h m =
      if exists (clock_wall day h m) then some (zone.utc (clock_wall day h m)) else none

  -- the day's occurrence, if it is a day for it and the occurrence is later than `after`
  unfoldable pub run_on : Option ℕ → ℕ → ℕ → ℕ → ℕ → Option ℕ
  unfolding local_occurrence
  run_on weekday h m after day =
      if is_wanted weekday day
      then (elim (local_occurrence day h m) [ none ↦ none | some value ↦ when_after value after ])
      else none

  -- `for offset in range(...)`, with the days that are left and the day that it is at
  unfoldable pub search_days : Option ℕ → ℕ → ℕ → ℕ → ℕ → ℕ → Option ℕ
  unfolding run_on
  search_days weekday h m after zero day = none
  search_days weekday h m after (suc left) day =
      let later = search_days weekday h m after left (day + 1) in
      elim (run_on weekday h m after day) [ none ↦ later | some value ↦ some value ]

  unfoldable pub next_day : Option ℕ → ℕ → ℕ → ℕ → Result (Option ℕ)
  unfolding search_days
  next_day weekday h m after = elim (search_days weekday h m after 9 (zone.wall after).day) [
    | none ↦ error no_occurrence
    | some value ↦ ok (some value)
  ]

  unfoldable pub next_once : Stamp → ℕ → Result (Option ℕ)
  next_once (aware t) after = ok (when_after t after)
  next_once (naive w) after =
      if exists w then ok (when_after (zone.utc w) after) else error no_such_time

  abbrev pub start_of : Option Stamp → ℕ → ℕ
  start_of none after = after
  start_of (some stamp) after = instant_of stamp

  unfoldable pub next_run : Timing → ℕ → Result (Option ℕ)
  unfolding next_day next_once next_on_grid
  next_run (once at) after = next_once at after
  next_run (interval every span start) after =
      if every * span_hours span == 0
      then error not_positive
      else ok (some (next_on_grid (start_of start after) (every * span_hours span * hour) after))
  next_run (daily h m) after = next_day none h m after
  next_run (weekly weekday h m) after =
      if ltb weekday 7 then next_day (some weekday) h m after else error invalid_weekday

  unfoldable pub following_run : Timing → ℕ → ℕ → ℕ → ℕ → Result (Option ℕ)
  unfolding following_after next_run
  following_run timing occurrence started now min_hours =
      next_run timing (following_after occurrence started now min_hours)

  unfoldable pub validate_repeating : Timing → ℕ → ℕ → Result ℕ
  unfolding check_gap next_run
  validate_repeating timing min_hours now = elim (next_run timing now) [
    | error e ↦ error e
    | ok none ↦ error no_occurrence
    | ok (some value) ↦ elim (next_run timing value) [
      | error e ↦ error e
      | ok none ↦ error no_occurrence
      | ok (some later) ↦ check_gap timing min_hours value later
    ]
  ]

  unfoldable pub validate_schedule : Timing → ℕ → ℕ → Result ℕ
  unfolding validate_repeating next_run
  validate_schedule (once at) min_hours now = elim (next_run (once at) now) [
    | error e ↦ error e
    | ok none ↦ error not_future
    | ok (some value) ↦ ok value
  ]
  validate_schedule timing min_hours now = validate_repeating timing min_hours now

-- `abs(other - at_ts)`, in microseconds
abbrev pub distance : ℕ → ℕ → ℕ
distance a b = max (a - b) (b - a)

-- `min(..., key=...)`: the first of those that are closest
unfoldable pub closest : ℕ → List ℕ → Option ℕ
closest at [] = none
closest at (x ∷ xs) =
    let best = closest at xs in
    elim best [
      | none ↦ some x
      | some y ↦ if leb (distance x at) (distance y at) then some x else some y
    ]

unfoldable pub followup_conflict : ℕ → List ℕ → ℕ → Option ℕ
unfolding closest
followup_conflict at others min_hours =
    closest at (filter (λ other. ltb (distance other at) (min_hours * hour)) others)
