-- ===== src/Records/Apart.antt =====
-- The times of a person's follow-ups.
use discord_chat_bot.Prelude.{
  arith, ◌∷◌, [], map, filter, not, ◌==◌, ◌&&◌, ℕ, ◌*◌, ◌≤◌, ◌<◌, ◌≡◌, refl, inl, inr, ◌⊎◌, Bool,
  true, false, Option, none, some, List, if◌then◌else◌, All,
}
use discord_chat_bot.Schedule.{hour, distance}
use discord_chat_bot.Entries.{Entry, Command}
use discord_chat_bot.Records.Quota.{
  Settings, Quota, limit_of, active_count, quota_of, is_full, creates,
}

-- a time that a follow-up can run at beside another
abbrev pub IsClear : Settings → Entry → ℕ → Type 0
IsClear cfg e at = cfg.min_hours * hour ≤ distance at e.next_run

abbrev pub IsClearOfLast : Settings → Entry → Option ℕ → Type 0
IsClearOfLast cfg e none = Unit
IsClearOfLast cfg e (some at) = IsClear cfg e at

-- a follow-up is at least the minimum interval from each of its person's others that has a time,
-- and from the last one that ran
unfoldable pub IsApart : Settings → Entry → List Entry → Option ℕ → Type 0
IsApart cfg e rows last =
    e.followup ≡ true
    → All
        (λ (o : Entry).
          o.followup ≡ true
          → o.creator_id ≡ e.creator_id
          → (o.next_run ≡ 0) ⊎ IsClear cfg e o.next_run)
        rows
      × IsClearOfLast cfg e last

-- what is known of a record that the transaction writes
abbrev pub IsAdmitted : Settings → Entry → ℕ → List Entry → Option ℕ → List Command → Type 0
IsAdmitted cfg e now rows last cs =
    (cs ≡ creates e now)
    × (active_count (quota_of e.kind e.followup) rows < limit_of cfg (quota_of e.kind e.followup))
    × IsApart cfg e rows last

pub room :
    (cfg : Settings) (q : Quota) (rows : List Entry)
    → is_full cfg q rows ≡ false
    → active_count q rows < limit_of cfg q
unfolding is_full
room cfg q rows h = ground arith

abbrev is_other : ℕ → Entry → Bool
is_other actor e = e.followup && (not (e.next_run == 0) && e.creator_id == actor)

skipped :
    (a : Bool) (n c d : ℕ) → (a && (not (n == 0) && c == d)) ≡ false → a ≡ true → c ≡ d → n ≡ 0
skipped a n c d h k e = ground arith

unfoldable pub times_of : ℕ → List Entry → List ℕ
times_of actor rows = map (λ (o : Entry). o.next_run) (filter (is_other actor) rows)

pub other_times :
    (cfg : Settings) (e : Entry) (rows : List Entry)
    → All (IsClear cfg e) (times_of e.creator_id rows)
    → All
        (λ (o : Entry).
          o.followup ≡ true
          → o.creator_id ≡ e.creator_id
          → (o.next_run ≡ 0) ⊎ IsClear cfg e o.next_run)
        rows
unfolding times_of
other_times cfg e [] h = tt
other_times cfg e (o ∷ rows) h =
    elim (is_other e.creator_id o)
        as (λ b.
          is_other e.creator_id o ≡ b
          → All (IsClear cfg e) (
              map (λ (o : Entry). o.next_run)
                (if b
                  then o ∷ filter (is_other e.creator_id) rows
                  else filter (is_other e.creator_id) rows))
          → All
              (λ (o : Entry).
                o.followup ≡ true
                → o.creator_id ≡ e.creator_id
                → (o.next_run ≡ 0) ⊎ IsClear cfg e o.next_run)
              (o ∷ rows)) [
                | true ↦ λ t k. (λ f c. inr k.0, other_times cfg e rows k.1)
                | false ↦ λ t k. (
                  λ f c. inl (skipped o.followup o.next_run o.creator_id e.creator_id t f c),
                  other_times cfg e rows k,
                )
              ]
      refl h

pub last_time :
    (cfg : Settings) (e : Entry) (last : Option ℕ)
    → All (IsClear cfg e) (elim last [ none ↦ [] | some at ↦ at ∷ [] ])
    → IsClearOfLast cfg e last
last_time cfg e none h = tt
last_time cfg e (some at) h = h.0
