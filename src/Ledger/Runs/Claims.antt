-- ===== src/Ledger/Runs/Claims.antt =====
-- Claims and releases of runs in core/classes/sandbox_thread_inbox.py.
use discord_chat_bot.Prelude.{
  ℕ, ◌+◌, ◌<◌, ◌≡◌, ◌≢◌, ◌↔◌, ◌⊎◌, inl, inr, sym, Bool, false, Option, none, some, if◌then◌else◌,
  lookup, ite, ℕ_discrete, Bool-cases, Option-cases, arith,
}
use discord_chat_bot.Dict.Laws.{lookup-remove, lookup-set}
use discord_chat_bot.Ledger.{closed, no_run}
use discord_chat_bot.Ledger.Intake.{Message}
use discord_chat_bot.Ledger.Runs.{
  World, new_ledger, drop_run, owner_done, get_run, claim_run, deliver, release_run,
}

abbrev pub held : World → ℕ → Option ℕ
held w thread = lookup ℕ_discrete thread w.runs

-- Each registered reference was given out, and its ledger is the thread's own and not closed.
pub record IsSound (w : World) : Type 0 where
  pub given : (t r : ℕ) → held w t ≡ some r → r < w.fresh
  pub own : (t r : ℕ) → held w t ≡ some r → (w.ledger r).thread_id ≡ t
  pub alive : (t r : ℕ) → held w t ≡ some r → (w.ledger r).state ≢ closed

-- No two threads share a ledger.
pub held_distinct :
    (w : World) (t u r : ℕ) → IsSound w → held w t ≡ some r → held w u ≡ some r → t ≡ u
held_distinct w t u r s a b = omega (arith, s.own t r a, s.own u r b)

module _ (w : World) (thread r : ℕ) (s : IsSound w) (h : held w thread ≡ some r) where
  drop_run-held : (t : ℕ) → held (drop_run w thread r) t ≡ ite (ℕ_discrete t thread) none (held w t)
  unfolding drop_run
  drop_run-held t = lookup-remove ℕ_discrete thread t w.runs

  drop_run-other :
      (t q : ℕ)
      → held (drop_run w thread r) t ≡ some q
      → (held w t ≡ some q) × (t ≢ thread) × ((drop_run w thread r).ledger q ≡ w.ledger q)
  unfolding drop_run
  drop_run-other t q e =
      let k = lookup-remove ℕ_discrete thread t w.runs in
      let a : held w t ≡ some q = ground arith in
      let n : t ≢ thread = ground arith in (a, n, ground (arith, held_distinct w t thread q s a))

  drop_run-IsSound : IsSound (drop_run w thread r)
  drop_run-IsSound = record {
    given = λ t q e. let (a, _, _) = drop_run-other t q e in unfold drop_run in s.given t q a;
    own = λ t q e. let (a, _, k) = drop_run-other t q e in rw k (s.own t q a);
    alive = λ t q e. let (a, _, k) = drop_run-other t q e in rw k (s.alive t q a);
  }

module _ (finished : ℕ → Bool) (w : World) (thread : ℕ) where
  -- the thread's run, unless its owner is gone
  abbrev pub active : Option ℕ
  active = elim (held w thread) [
    | none ↦ none
    | some r ↦ if owner_done finished (w.ledger r).owner then none else some r
  ]

  pub get_run-IsSound : IsSound w → IsSound (get_run finished w thread).1
  unfolding get_run
  get_run-IsSound s = elim (Option-cases (held w thread)) [
    | inl e ↦ rw (e, get_run) s
    | inr (r, e) ↦ elim (Bool-cases (owner_done finished (w.ledger r).owner)) [
      | inl q ↦ rw (e, get_run, q) (drop_run-IsSound w thread r s e)
      | inr q ↦ rw (e, get_run, q) s
    ]
  ]

  -- A lookup finds the run whose owner still works, and afterwards the thread holds that run or
  -- none; the other threads hold what they held.
  pub get_run_lem :
      (t : ℕ)
      → ((get_run finished w thread).0 ≡ active)
        × (held (get_run finished w thread).1 t ≡ ite (ℕ_discrete t thread) active (held w t))
  unfolding get_run drop_run
  get_run_lem t = elim (Option-cases (held w thread)) [
    | inl e ↦ ground arith
    | inr (r, e) ↦ ground (arith, lookup-remove ℕ_discrete thread t w.runs)
  ]

  fresh-get_run : (get_run finished w thread).1.fresh ≡ w.fresh
  unfolding get_run drop_run
  fresh-get_run = ground arith

  module _ (requester owner : Option ℕ) where
    -- A claim fails exactly when the thread has a run whose owner still works.
    pub claim_run-none : ((claim_run finished w thread requester owner).0 ≡ none) ↔ (active ≢ none)
    unfolding claim_run
    claim_run-none =
        (λ h e. ground (arith, get_run_lem thread), λ h. ground (arith, get_run_lem thread, h))

    -- A claim that succeeds gives the thread a new ledger of its own, and no other thread's run
    -- is touched.
    pub claim_run-some :
        (r t : ℕ)
        → (claim_run finished w thread requester owner).0 ≡ some r
        → ((claim_run finished w thread requester owner).1.ledger r
            ≡ new_ledger thread requester owner)
          × (held (claim_run finished w thread requester owner).1 t
              ≡ ite (ℕ_discrete t thread) (some r) (held w t))
          × (r ≡ w.fresh)
    unfolding claim_run
    claim_run-some r t h = ground (
      arith,
      get_run_lem t,
      fresh-get_run,
      lookup-set ℕ_discrete thread t (get_run finished w thread).1.fresh
          (get_run finished w thread).1.runs,
    )

    claim_run-ledger :
        (r q : ℕ)
        → (claim_run finished w thread requester owner).0 ≡ some r
        → q ≢ r
        → (claim_run finished w thread requester owner).1.ledger q
          ≡ (get_run finished w thread).1.ledger q
    unfolding claim_run
    claim_run-ledger r q h n = ground arith

    pub claim_run-fresh :
        (r : ℕ)
        → (claim_run finished w thread requester owner).0 ≡ some r
        → (claim_run finished w thread requester owner).1.fresh ≡ w.fresh + 1
    unfolding claim_run
    claim_run-fresh r h = ground (arith, fresh-get_run)

    claim_run-same :
        (claim_run finished w thread requester owner).0 ≡ none
        → (claim_run finished w thread requester owner).1 ≡ (get_run finished w thread).1
    unfolding claim_run
    claim_run-same h = ground arith

    -- An entry after a claim is the new one, or an entry of before with the same ledger.
    claim_run-entry :
        (r t q : ℕ)
        → IsSound w
        → (claim_run finished w thread requester owner).0 ≡ some r
        → held (claim_run finished w thread requester owner).1 t ≡ some q
        → ((t ≡ thread) × (q ≡ r))
          ⊎ ((t ≢ thread) × (held (get_run finished w thread).1 t ≡ some q) × (q ≢ r))
    claim_run-entry r t q s h e = elim (ℕ_discrete t thread) [
      | yes p ↦ inl (p, ground (arith, claim_run-some r t h))
      | no n ↦
          let (_, a, b) = claim_run-some r t h in
          let old : held w t ≡ some q = ground arith in
          inr (n, ground (arith, get_run_lem t), λ same. absurd (omega (arith, s.given t q old)))
    ]

    claim_run-IsSound-some :
        (r : ℕ)
        → IsSound w
        → (claim_run finished w thread requester owner).0 ≡ some r
        → IsSound (claim_run finished w thread requester owner).1
    claim_run-IsSound-some r s h =
        let g = get_run-IsSound s in
        record {
          given = λ t q e. elim (claim_run-entry r t q s h e) [
            | inl (_, same) ↦ omega (arith, claim_run-fresh r h, (claim_run-some r t h).2)
            | inr (_, old, _) ↦ omega (arith, claim_run-fresh r h, fresh-get_run, g.given t q old)
          ];
          own = λ t q e. elim (claim_run-entry r t q s h e) [
            | inl (p, same) ↦ rw (same, (claim_run-some r t h).0) (unfold new_ledger in sym p)
            | inr (_, old, n) ↦ rw (claim_run-ledger r q h n) (g.own t q old)
          ];
          alive = λ t q e. elim (claim_run-entry r t q s h e) [
            | inl (p, same) ↦ rw (same, (claim_run-some r t h).0) (unfold new_ledger in λ c. cc)
            | inr (_, old, n) ↦ rw (claim_run-ledger r q h n) (g.alive t q old)
          ];
        }

    -- A claim, whether it succeeds or fails, keeps the registry sound.
    pub claim_run-IsSound : IsSound w → IsSound (claim_run finished w thread requester owner).1
    claim_run-IsSound s = elim (Option-cases (claim_run finished w thread requester owner).0) [
      | inl e ↦ rw (claim_run-same e) (get_run-IsSound s)
      | inr (r, e) ↦ claim_run-IsSound-some r s e
    ]

module _ (w : World) (thread r : ℕ) where
  -- A release is refused exactly when the ledger is not the one that the thread holds, and then
  -- changes nothing.
  pub release_run-false :
      ((release_run w thread r).0 ≡ false)
      ↔ ((held w thread ≢ some r) × ((release_run w thread r).1 ≡ w))
  unfolding release_run
  release_run-false = (λ h. ((λ e. ground arith), ground arith), λ h. ground (arith, h.0))

  -- A release by the holder frees the thread and closes its ledger; a message that comes later
  -- finds no run.
  pub release_run-true :
      (finished : ℕ → Bool) (m : Message) (now : ℕ)
      → held w thread ≡ some r
      → (held (release_run w thread r).1 thread ≡ none)
        × (((release_run w thread r).1.ledger r).state ≡ closed)
        × ((deliver finished (release_run w thread r).1 thread m now).0 ≡ no_run)
  unfolding release_run drop_run deliver get_run
  release_run-true finished m now h =
      let gone = lookup-remove ℕ_discrete thread thread w.runs in
      (ground arith, ground arith, ground arith)
