-- ===== src/Runner/Admits.antt =====
-- The jobs that a poll puts hold their claims.
use discord_chat_bot.Prelude.{
  ℕ, ◌+◌, ◌≤◌, ◌<◌, ◌≡◌, ◌≢◌, refl, sym, ap, subst, ◌∙◌, inl, inr, Bool, true, false, Option, none,
  some, List, [], ◌∷◌, if◌then◌else◌, All, All-append, Bool-cases, arith,
}
use discord_chat_bot.Text.{Text}
use discord_chat_bot.Text.Number.{show}
use discord_chat_bot.Schedule.{Zone}
use discord_chat_bot.Claims.{KeyStore, Claim, claim, cancel_claim, cancelled_keys}
use discord_chat_bot.Claims.Held.{IsHeld, IsHeld-later, claim-IsHeld, del_all_owned-IsHeld}
use discord_chat_bot.Claims.Once.{claim-keys}
use discord_chat_bot.Entries.{Entry}
use discord_chat_bot.Records.Quota.{get_row}
use discord_chat_bot.Runner.Poll.{
  Job, Turn, unlisted, suspends, interrupts, Turned, passed, stopped, row_of, put_job, turn_row,
  turn, poll,
}

-- turns in the order of their times, after the one and before the other
abbrev pub IsTimed : ℕ → ℕ → List Turn → Type 0
IsTimed from until [] = from < until
IsTimed from until (t ∷ ts) = (from ≤ t.time) × IsTimed t.time until ts

abbrev pub last_turn : ℕ → List Turn → ℕ
last_turn from [] = from
last_turn from (t ∷ ts) = last_turn t.time ts

-- each token that is drawn is new
abbrev pub AreNew : List Turn → Type 0
AreNew [] = Unit
AreNew (t ∷ ts) = All (λ (u : Turn). u.token ≢ t.token) ts × AreNew ts

last_turn-le : (from until : ℕ) (ts : List Turn) → IsTimed from until ts → from ≤ last_turn from ts
last_turn-le from until [] h = omega arith
last_turn-le from until (t ∷ ts) h = omega (arith, h.0, last_turn-le t.time until ts h.1)

last_turn-lt : (from until : ℕ) (ts : List Turn) → IsTimed from until ts → last_turn from ts < until
last_turn-lt from until [] h = h
last_turn-lt from until (t ∷ ts) h = last_turn-lt t.time until ts h.1

module _ {S : Type 0} (store : KeyStore S) (guild min_hours : ℕ) (zone_of : Text → Zone) where
  module _ (t : Turn) (until : ℕ) (key token : Text) where
    -- the key that the turn leaves held
    Leaves : Turned S → Type 0
    Leaves r = IsHeld store r.keys key token t.time until

    if-Leaves : (b : Bool) (x y : Turned S) → Leaves x → Leaves y → Leaves (if b then x else y)
    if-Leaves true x y h k = h
    if-Leaves false x y h k = k

    same-Leaves : (r : Turned S) → IsHeld store r.keys key token t.time until → Leaves r
    unfolding Leaves
    same-Leaves r h = h

    module _ (live : t.time < until) (n : t.token ≢ token) where
      put_job-Leaves :
          (row : Entry) (o : Option Claim) (s : S)
          → ((c : Claim) → o ≡ some c → c.token ≡ t.token)
          → IsHeld store s key token t.time until
          → Leaves (put_job store guild min_hours zone_of t row (o, s))
      unfolding cancel_claim
      put_job-Leaves row none s own h = same-Leaves _ h
      put_job-Leaves row (some c) s own h =
          if-Leaves t.is_full_late _ _
            (same-Leaves (stopped (cancel_claim store t.time c false s)) (
              del_all_owned-IsHeld store t.time key token until c.token live
                (λ e. n (sym (own c refl) ∙ e)) (cancelled_keys c false) s h))
            (same-Leaves (record (passed s []) { jobs = record { row = row; claim = c } ∷ [] }) h)

      turn_row-Leaves :
          (o : Option Entry) (s : S)
          → IsHeld store s key token t.time until
          → Leaves (turn_row store guild min_hours zone_of t o s)
      turn_row-Leaves none s h = same-Leaves (passed s (unlisted t.ident ∷ [])) h
      turn_row-Leaves (some row) s h =
          let got = claim store t.time (row_of guild row) (show row.next_run) t.token 900 s in
          if-Leaves _ _ _ (same-Leaves (passed s (unlisted t.ident ∷ [])) h) (
            if-Leaves _ _ _ (same-Leaves (passed s (suspends row ∷ [])) h) (
              if-Leaves _ _ _ (same-Leaves (passed s []) h) (
                if-Leaves _ _ _ (same-Leaves (passed s (interrupts row ∷ [])) h) (
                  put_job-Leaves row got.0 got.1
                    (λ c e.
                      ap (λ (c : Claim). c.token)
                        (claim-keys store t.time (row_of guild row) (show row.next_run) t.token 900
                          s c e).2)
                    (claim-IsHeld store t.time s key token until live h (row_of guild row)
                      (show row.next_run) t.token 900)))))

      turn-Leaves :
          (s : S)
          → IsHeld store s key token t.time until
          → Leaves (turn store guild min_hours zone_of t s)
      unfolding turn
      turn-Leaves s h =
          if-Leaves _ _ _ (same-Leaves (stopped s) h)
            (if-Leaves _ _ _ (same-Leaves (passed s []) h) (turn_row-Leaves (get_row t.stored) s h))

  module _ (t : Turn) where
    -- the jobs of a turn have its token, and hold their locks
    Holds : Turned S → Type 0
    Holds r =
        All
          (λ (j : Job).
            (j.claim.token ≡ t.token)
            × IsHeld store r.keys j.claim.lock t.token t.time (t.time + 900))
          r.jobs

    if-Holds : (b : Bool) (x y : Turned S) → Holds x → Holds y → Holds (if b then x else y)
    if-Holds true x y h k = h
    if-Holds false x y h k = k

    no-jobs : (r : Turned S) → r.jobs ≡ [] → Holds r
    unfolding Holds
    no-jobs r h = rw h tt

    put_job-Holds :
        (row : Entry) (o : Option Claim) (s : S)
        → ((c : Claim)
            → o ≡ some c
            → (c.token ≡ t.token) × IsHeld store s c.lock t.token t.time (t.time + 900))
        → Holds (put_job store guild min_hours zone_of t row (o, s))
    unfolding Holds
    put_job-Holds row none s own = tt
    put_job-Holds row (some c) s own = elim (Bool-cases t.is_full_late) [
      | inl e ↦ rw e tt
      | inr e ↦ rw e (own c refl, tt)
    ]

    turn_row-Holds :
        (o : Option Entry) (s : S) → Holds (turn_row store guild min_hours zone_of t o s)
    turn_row-Holds none s = no-jobs (passed s (unlisted t.ident ∷ [])) refl
    turn_row-Holds (some row) s =
        let got = claim store t.time (row_of guild row) (show row.next_run) t.token 900 s in
        if-Holds _ _ _ (no-jobs (passed s (unlisted t.ident ∷ [])) refl) (
          if-Holds _ _ _ (no-jobs (passed s (suspends row ∷ [])) refl) (
            if-Holds _ _ _ (no-jobs (passed s []) refl) (
              if-Holds _ _ _ (no-jobs (passed s (interrupts row ∷ [])) refl) (
                put_job-Holds row got.0 got.1 λ c e.
                  let (held, key, same) =
                    claim-keys store t.time (row_of guild row) (show row.next_run) t.token 900 s c
                      e in
                  (
                    ap (λ (c : Claim). c.token) same,
                    subst (λ l. IsHeld store got.1 l t.token t.time (t.time + 900))
                        (sym (ap (λ (c : Claim). c.lock) same)) held,
                  )))))

    turn-Holds : (s : S) → Holds (turn store guild min_hours zone_of t s)
    unfolding turn
    turn-Holds s =
        if-Holds _ _ _ (no-jobs (stopped s) refl)
          (if-Holds _ _ _ (no-jobs (passed s []) refl) (turn_row-Holds (get_row t.stored) s))

  poll-keeps :
      (key token : Text) (from until : ℕ) (ts : List Turn) (s : S)
      → IsTimed from until ts
      → All (λ (u : Turn). u.token ≢ token) ts
      → IsHeld store s key token from until
      → IsHeld store
          (poll store guild min_hours zone_of ts s).keys
          key
          token
          (last_turn from ts)
          until
  unfolding poll Leaves
  poll-keeps key token from until [] s h n k = k
  poll-keeps key token from until (t ∷ ts) s h n k =
      let held =
        turn-Leaves t until key token
          (omega (arith, last_turn-le t.time until ts h.1, last_turn-lt t.time until ts h.1)) n.0 s
          (IsHeld-later store s key token from t.time until h.0 k) in
      elim (Bool-cases (turn store guild min_hours zone_of t s).goes_on) [
        | inl e ↦ rw e (poll-keeps key token t.time until ts _ h.1 n.1 held)
        | inr e ↦ rw e (
            IsHeld-later store _ key token t.time (last_turn t.time ts) until
              (last_turn-le t.time until ts h.1) held)
      ]

  module _ (t : Turn) (until : ℕ) (ts : List Turn) (in_time : until ≤ t.time + 900)
      (h : IsTimed t.time until ts) (n : All (λ (u : Turn). u.token ≢ t.token) ts) where
    shorter :
        (s : S) (key : Text)
        → IsHeld store s key t.token t.time (t.time + 900)
        → IsHeld store s key t.token t.time until
    unfolding IsHeld
    shorter s key k u a b = k u a (omega (arith, in_time, b))

    -- a turn's jobs hold their locks at the end of the poll
    kept_jobs :
        (jobs : List Job) (s : S)
        → All
            (λ (j : Job).
              (j.claim.token ≡ t.token) × IsHeld store s j.claim.lock t.token t.time (t.time + 900))
            jobs
        → All
            (λ (j : Job).
              IsHeld store
                (poll store guild min_hours zone_of ts s).keys
                j.claim.lock
                j.claim.token
                (last_turn t.time ts)
                until)
            jobs
    kept_jobs [] s k = tt
    kept_jobs (j ∷ jobs) s k = (
      subst
          (λ token.
            IsHeld store (poll store guild min_hours zone_of ts s).keys j.claim.lock token
              (last_turn t.time ts) until)
          (sym k.0.0)
          (poll-keeps j.claim.lock t.token t.time until ts s h n (shorter s j.claim.lock k.0.1)),
      kept_jobs jobs s k.1,
    )

    last_jobs :
        (jobs : List Job) (s : S)
        → All
            (λ (j : Job).
              (j.claim.token ≡ t.token) × IsHeld store s j.claim.lock t.token t.time (t.time + 900))
            jobs
        → All
            (λ (j : Job). IsHeld store s j.claim.lock j.claim.token (last_turn t.time ts) until)
            jobs
    last_jobs [] s k = tt
    last_jobs (j ∷ jobs) s k = (
      subst (λ token. IsHeld store s j.claim.lock token (last_turn t.time ts) until) (sym k.0.0)
          (IsHeld-later store s j.claim.lock t.token t.time (last_turn t.time ts) until
            (last_turn-le t.time until ts h) (shorter s j.claim.lock k.0.1)),
      last_jobs jobs s k.1,
    )

  -- If the tokens that are drawn are new, no other worker touches the keys and the poll takes less than
  -- the claims' time, then each job that it puts holds the lock of its claim from the poll's end on, up
  -- to that time.
  pub poll-IsHeld :
      (from until : ℕ) (ts : List Turn) (s : S)
      → until ≤ from + 900
      → IsTimed from until ts
      → AreNew ts
      → All
          (λ (j : Job).
            IsHeld store
              (poll store guild min_hours zone_of ts s).keys
              j.claim.lock
              j.claim.token
              (last_turn from ts)
              until)
          (poll store guild min_hours zone_of ts s).jobs
  unfolding poll Holds
  poll-IsHeld from until [] s le h n = tt
  poll-IsHeld from until (t ∷ ts) s le h n =
      let in_time : until ≤ t.time + 900 = omega (arith, le, h.0) in
      let s' = (turn store guild min_hours zone_of t s).keys in
      let jobs = (turn store guild min_hours zone_of t s).jobs in
      let held = turn-Holds t s in
      elim (Bool-cases (turn store guild min_hours zone_of t s).goes_on) [
        | inl e ↦ rw e (
            All-append _ jobs (poll store guild min_hours zone_of ts s').jobs
              (kept_jobs t until ts in_time h.1 n.0 jobs s' held)
              (poll-IsHeld t.time until ts s' in_time h.1 n.1))
        | inr e ↦ rw e (last_jobs t until ts in_time h.1 n.0 jobs s' held)
      ]
