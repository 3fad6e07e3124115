-- ===== src/Ledger/Runs/Kept.antt =====
-- A run's hold on its thread over the calls of others, in core/classes/sandbox_thread_inbox.py.
use discord_chat_bot.Prelude.{
  ℕ, ◌<◌, ◌≡◌, ◌≢◌, inl, inr, refl, ◌∙◌, ap, Bool, false, Option, none, some, List, [], ◌∷◌, All,
  ℕ_discrete, Bool-cases, Option-cases, arith,
}
use discord_chat_bot.Dict.Laws.{lookup-remove, lookup-set}
use discord_chat_bot.Ledger.{RunLedger}
use discord_chat_bot.Ledger.Intake.{Message}
use discord_chat_bot.Ledger.Intake
use discord_chat_bot.Ledger.Runs.{
  World, new_ledger, drop_run, owner_done, get_run, claim_run, deliver, release_run,
}
use discord_chat_bot.Ledger.Runs.Claims.{held, claim_run-some, claim_run-none, claim_run-fresh}

-- A call of the registry's, with the tasks that have finished by then.
pub data Call : Type 0 where
  looks : (ℕ → Bool) → ℕ → Call
  claims : (ℕ → Bool) → ℕ → Option ℕ → Option ℕ → Call
  delivers : (ℕ → Bool) → ℕ → Message → ℕ → Call
  releases : ℕ → ℕ → Call

unfoldable pub call : Call → World → World
call (looks finished t) w = (get_run finished w t).1
call (claims finished t requester owner) w = (claim_run finished w t requester owner).1
call (delivers finished t m now) w = (deliver finished w t m now).1
call (releases t q) w = (release_run w t q).1

unfoldable pub call_all : List Call → World → World
call_all [] w = w
call_all (c ∷ cs) w = call_all cs (call c w)

-- the task has not finished, and the ledger is not released
abbrev pub IsApart : ℕ → ℕ → Call → Type 0
IsApart task r (looks finished t) = finished task ≡ false
IsApart task r (claims finished t requester owner) = finished task ≡ false
IsApart task r (delivers finished t m now) = finished task ≡ false
IsApart task r (releases t q) = q ≢ r

owner-deliver : (l : RunLedger) (m : Message) (now : ℕ) → (Intake.deliver l m now).1.owner ≡ l.owner
unfolding Intake.deliver Intake.deliver_text Intake.deliver_open Intake.deliver_late Intake.accept
    Intake.compact
owner-deliver l m now = ground arith

module _ (thread task r : ℕ) where
  -- the thread has the ledger, which is the task's
  pub record IsKept (w : World) : Type 0 where
    pub holds : held w thread ≡ some r
    pub owned : (w.ledger r).owner ≡ some task
    pub given : r < w.fresh

  drop_run-IsKept : (w : World) (t q : ℕ) → t ≢ thread → q ≢ r → IsKept w → IsKept (drop_run w t q)
  unfolding drop_run
  drop_run-IsKept w t q n m k = record {
    holds = ground (arith, lookup-remove ℕ_discrete t thread w.runs, k.holds);
    owned = ground (arith, k.owned);
    given = k.given;
  }

  get_run-IsKept :
      (finished : ℕ → Bool) (w : World) (t : ℕ)
      → finished task ≡ false
      → IsKept w
      → IsKept (get_run finished w t).1
  unfolding get_run
  get_run-IsKept finished w t busy k = elim (Option-cases (held w t)) [
    | inl e ↦ rw (e, get_run) k
    | inr (q, e) ↦ elim (Bool-cases (owner_done finished (w.ledger q).owner)) [
      | inr d ↦ rw (e, get_run, d) k
      | inl d ↦
          let other : q ≢ r = λ p. unfold owner_done in ground (arith, k.owned) in
          rw (e, get_run, d) (drop_run-IsKept w t q (λ p. other (ground (arith, k.holds))) other k)
    ]
  ]

  claim_run-IsKept :
      (finished : ℕ → Bool) (w : World) (t : ℕ) (requester owner : Option ℕ)
      → finished task ≡ false
      → IsKept w
      → IsKept (claim_run finished w t requester owner).1
  unfolding claim_run
  claim_run-IsKept finished w t requester owner busy k =
      let g = get_run-IsKept finished w t busy k in
      elim (Option-cases (get_run finished w t).0) [
        | inr (q, e) ↦ rw (e, claim_run) g
        | inl e ↦
            let other : t ≢ thread =
              λ p. unfold get_run owner_done in ground (arith, k.holds, k.owned, busy) in
            rw (e, claim_run)
              (record {
                holds = ground (
                  arith,
                  lookup-set ℕ_discrete t thread (get_run finished w t).1.fresh
                      (get_run finished w t).1.runs,
                  g.holds,
                );
                owned = ground (arith, g.owned, g.given);
                given = omega (arith, g.given);
              })
      ]

  deliver-IsKept :
      (finished : ℕ → Bool) (w : World) (t : ℕ) (m : Message) (now : ℕ)
      → finished task ≡ false
      → IsKept w
      → IsKept (deliver finished w t m now).1
  unfolding deliver
  deliver-IsKept finished w t m now busy k =
      let g = get_run-IsKept finished w t busy k in
      let w' = (get_run finished w t).1 in
      elim (Option-cases (get_run finished w t).0) [
        | inl e ↦ rw (e, deliver) g
        | inr (q, e) ↦
            rw (e, deliver)
              (record {
                holds = g.holds;
                owned = ground (arith, g.owned, owner-deliver (w'.ledger q) m now);
                given = g.given;
              })
      ]

  release_run-IsKept : (w : World) (t q : ℕ) → q ≢ r → IsKept w → IsKept (release_run w t q).1
  unfolding release_run
  release_run-IsKept w t q n k = elim (Option-cases (held w t)) [
    | inl e ↦ rw (e, release_run) k
    | inr (p, e) ↦ elim (ℕ_discrete p q) [
      | yes s ↦
          let other : t ≢ thread = λ u. n (ground (arith, k.holds)) in
          rw (e, release_run) (ground (arith, s, drop_run-IsKept w t p other (ground (arith, n)) k))
      | no s ↦ rw (e, release_run) (ground (arith, s, k))
    ]
  ]

  call-IsKept : (c : Call) (w : World) → IsApart task r c → IsKept w → IsKept (call c w)
  unfolding call
  call-IsKept (looks finished t) w a k = get_run-IsKept finished w t a k
  call-IsKept (claims finished t requester owner) w a k =
      claim_run-IsKept finished w t requester owner a k
  call-IsKept (delivers finished t m now) w a k = deliver-IsKept finished w t m now a k
  call-IsKept (releases t q) w a k = release_run-IsKept w t q a k

  call_all-IsKept :
      (cs : List Call) (w : World) → All (IsApart task r) cs → IsKept w → IsKept (call_all cs w)
  unfolding call_all
  call_all-IsKept [] w a k = k
  call_all-IsKept (c ∷ cs) w a k = call_all-IsKept cs (call c w) a.1 (call-IsKept c w a.0 k)

  claimed-IsKept :
      (finished : ℕ → Bool) (w : World) (requester : Option ℕ)
      → (claim_run finished w thread requester (some task)).0 ≡ some r
      → IsKept (claim_run finished w thread requester (some task)).1
  claimed-IsKept finished w requester h =
      let (a, b, c) = claim_run-some finished w thread requester (some task) r thread h in
      record {
        holds = ground arith;
        owned = ap (λ l. l.owner) a ∙ (unfold new_ledger in refl);
        given = omega (arith, c, claim_run-fresh finished w thread requester (some task) r h);
      }

-- From a successful claim of a thread on, as long as the claim's task has not finished and its
-- ledger is not released, every further claim of the thread fails, whatever messages are delivered
-- and whatever other runs are looked up, claimed or released in between.
pub claim_run-exclusive :
    (finished : ℕ → Bool) (w : World) (thread : ℕ) (requester : Option ℕ) (task r : ℕ)
    (cs : List Call) (finished' : ℕ → Bool) (requester' owner' : Option ℕ)
    → (claim_run finished w thread requester (some task)).0 ≡ some r
    → All (IsApart task r) cs
    → finished' task ≡ false
    → (claim_run finished'
        (call_all cs (claim_run finished w thread requester (some task)).1)
        thread
        requester'
        owner').0
      ≡ none
claim_run-exclusive finished w thread requester task r cs finished' requester' owner' h a busy =
    let w' = call_all cs (claim_run finished w thread requester (some task)).1 in
    let k =
      call_all-IsKept thread task r cs _ a (claimed-IsKept thread task r finished w requester h) in
    (claim_run-none finished' w' thread requester' owner').1
      (λ e. unfold owner_done in ground (arith, k.holds, k.owned, busy))
