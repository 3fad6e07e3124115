-- ===== src/Claims/Once.antt =====
-- What a claim of an automation excludes, and what its release gives back.
use discord_chat_bot.Prelude.{
  ℕ, ◌+◌, ◌≤◌, ◌<◌, ◌≡◌, ◌≢◌, ◌⊎◌, inl, inr, refl, sym, ap, ◌∙◌, Bool, true, false, ◌&&◌, ◌||◌,
  Option, none, some, List, ltb, ite, Bool-cases, and-true, arith,
}
use discord_chat_bot.Text.{Text, Text-discrete}
use discord_chat_bot.Claims.{
  KeyStore, Row, claim_key, busy_key, Claim, is_some, is_token, claim, del_owned, release, lengthen,
  renew, Op, steps,
}
use discord_chat_bot.Claims.Keys.{busy≢claim}
use discord_chat_bot.Claims.Held.{IsHeld, is_token-some, set_ex-IsHeld, expire-IsHeld}
use discord_chat_bot.Claims.Runs.{IsRun, last_time, steps-IsHeld}

or_true : (b : Bool) → (b || true) ≡ true
or_true b = ground arith

and_held : (token : Text) (o : Option Text) → is_token token o ≡ true → o ≡ some token
and_held token none h = cc h
and_held token (some v) h = ap some (is_token-some token v h)

token_itself : (token : Text) → is_token token (some token) ≡ true
token_itself token = elim (Text-discrete token token) as (λ d. ite d true false ≡ true) [
  | yes e ↦ refl
  | no n ↦ absurd (n refl)
]

module _ {S : Type 0} (store : KeyStore S) where
  fresh-IsHeld :
      (now : ℕ) (k token : Text) (seconds : ℕ) (s : S)
      → IsHeld store (store.set_ex now k token seconds s) k token now (now + seconds)
  unfolding IsHeld
  fresh-IsHeld now k token seconds s t a b = store.get-set_ex now k token seconds s t a b

  -- the two keys of a claim that succeeds
  pub claim-keys :
      (now : ℕ) (row : Row) (occurrence token : Text) (seconds : ℕ) (s : S) (c : Claim)
      → (claim store now row occurrence token seconds s).0 ≡ some c
      → IsHeld store
          (claim store now row occurrence token seconds s).1
          (busy_key row)
          token
          now
          (now + seconds)
        × IsHeld store
            (claim store now row occurrence token seconds s).1
            (claim_key row occurrence)
            token
            now
            (now + seconds)
        × (c ≡ record { key = claim_key row occurrence; lock = busy_key row; token = token })
  unfolding claim
  claim-keys now row occurrence token seconds s c h =
      elim (Bool-cases (
        is_some (store.get now s (claim_key row occurrence))
        || is_some (store.get now s (busy_key row)))) [
          | inl e ↦ cc (rw e at h)
          | inr e ↦ rw e (
            fresh-IsHeld now (busy_key row) token seconds _,
            set_ex-IsHeld store now (busy_key row) token seconds _ (claim_key row occurrence) token
                now (now + seconds) (λ q. busy≢claim row row occurrence (sym q))
                (fresh-IsHeld now (claim_key row occurrence) token seconds s),
            cc (rw e at h),
          )
        ]

  -- a claim that finds one of its keys fails
  claim-taken :
      (now : ℕ) (row : Row) (occurrence token v : Text) (seconds : ℕ) (s : S)
      → (store.get now s (claim_key row occurrence) ≡ some v)
        ⊎ (store.get now s (busy_key row) ≡ some v)
      → (claim store now row occurrence token seconds s).0 ≡ none
  unfolding claim
  claim-taken now row occurrence token v seconds s (inl e) = rw e refl
  claim-taken now row occurrence token v seconds s (inr e) = rw (e, or_true _) refl

  -- From a successful claim on, until it runs out, no other claim of the automation succeeds,
  -- whatever the other workers do meanwhile, as long as no claim of theirs has its token.
  pub claim_exclusive :
      (now : ℕ) (row : Row) (occurrence token : Text) (seconds : ℕ) (s : S) (c : Claim)
      (ops : List (ℕ × Op)) (t : ℕ) (occurrence' token' : Text) (seconds' : ℕ)
      → (claim store now row occurrence token seconds s).0 ≡ some c
      → IsRun store (busy_key row) token now (now + seconds) ops
      → last_time store now ops ≤ t
      → t < now + seconds
      → (claim store t row occurrence' token' seconds'
          (steps store ops (claim store now row occurrence token seconds s).1)).0
        ≡ none
  unfolding IsHeld
  claim_exclusive now row occurrence token seconds s c ops t occurrence' token' seconds' h r a b =
      let s' = (claim store now row occurrence token seconds s).1 in
      let held =
        steps-IsHeld store (busy_key row) token now (now + seconds) ops s' r
          (claim-keys now row occurrence token seconds s c h).0 in
      claim-taken t row occurrence' token' token seconds' (steps store ops s') (inr (held t a b))

  -- Also after its release, an occurrence is not claimed again until its claim would have run out, as
  -- long as nobody cancels or renews with the claim's token.
  pub claim_once :
      (now : ℕ) (row : Row) (occurrence token : Text) (seconds : ℕ) (s : S) (c : Claim)
      (ops : List (ℕ × Op)) (t : ℕ) (token' : Text) (seconds' : ℕ)
      → (claim store now row occurrence token seconds s).0 ≡ some c
      → IsRun store (claim_key row occurrence) token now (now + seconds) ops
      → last_time store now ops ≤ t
      → t < now + seconds
      → (claim store t row occurrence token' seconds'
          (steps store ops (claim store now row occurrence token seconds s).1)).0
        ≡ none
  unfolding IsHeld
  claim_once now row occurrence token seconds s c ops t token' seconds' h r a b =
      let s' = (claim store now row occurrence token seconds s).1 in
      let held =
        steps-IsHeld store (claim_key row occurrence) token now (now + seconds) ops s' r
          (claim-keys now row occurrence token seconds s c h).1 in
      claim-taken t row occurrence token' token seconds' (steps store ops s') (inl (held t a b))

  -- The release of a claim gives the lock back, and any other occurrence can be claimed.
  pub release-claim :
      (now : ℕ) (row : Row) (occurrence token : Text) (seconds : ℕ) (s : S) (c : Claim)
      (ops : List (ℕ × Op)) (t : ℕ)
      → (claim store now row occurrence token seconds s).0 ≡ some c
      → IsRun store (busy_key row) token now (now + seconds) ops
      → last_time store now ops ≤ t
      → t < now + seconds
      → store.get t
          (release store t
            (some c)
            (steps store ops (claim store now row occurrence token seconds s).1))
          (busy_key row)
        ≡ none
  unfolding release del_owned IsHeld
  release-claim now row occurrence token seconds s c ops t h r a b =
      let s' = (claim store now row occurrence token seconds s).1 in
      let keys = claim-keys now row occurrence token seconds s c h in
      let held = steps-IsHeld store (busy_key row) token now (now + seconds) ops s' r keys.0 in
      rw (keys.2, held t a b, token_itself token)
        (store.get-del (busy_key row) (steps store ops s') t)

  lengthened :
      (now : ℕ) (c : Claim) (seconds : ℕ) (s : S)
      → store.get now s c.key ≡ some c.token
      → IsHeld store (lengthen store now c.key seconds s) c.key c.token now (now + seconds)
  unfolding lengthen IsHeld
  lengthened now c seconds s h = elim (Bool-cases (ltb (store.ttl now s c.key) seconds)) [
    | inl e ↦ rw e (λ t a b. store.get-expire now c.key seconds s t a b ∙ h)
    | inr e ↦ rw e (λ t a b. store.get-ttl now s c.key t a (ground (arith, b, e)) ∙ h)
  ]

  lengthen-other :
      (now : ℕ) (k : Text) (seconds : ℕ) (s : S) (j : Text)
      → j ≢ k
      → store.get now (lengthen store now k seconds s) j ≡ store.get now s j
  unfolding lengthen
  lengthen-other now k seconds s j n = elim (Bool-cases (ltb (store.ttl now s k) seconds)) [
    | inl e ↦ rw e (store.get-expire_other now k seconds s now j n)
    | inr e ↦ rw e refl
  ]

  relocked :
      (now : ℕ) (c : Claim) (seconds : ℕ) (s : S)
      → store.get now s c.lock ≡ some c.token
      → IsHeld store (store.expire now c.lock seconds s) c.lock c.token now (now + seconds)
  unfolding IsHeld
  relocked now c seconds s h t a b = store.get-expire now c.lock seconds s t a b ∙ h

  -- A renewal that succeeds keeps both keys for the whole of its term.
  pub renew_lem :
      (now : ℕ) (c : Claim) (seconds : ℕ) (s : S)
      → c.key ≢ c.lock
      → (renew store now c seconds s).0 ≡ true
      → IsHeld store (renew store now c seconds s).1 c.key c.token now (now + seconds)
        × IsHeld store (renew store now c seconds s).1 c.lock c.token now (now + seconds)
  unfolding renew
  renew_lem now c seconds s n h =
      elim (Bool-cases
        (is_token c.token (store.get now s c.key) && is_token c.token (store.get now s c.lock))) [
          | inr e ↦ cc (rw e at h)
          | inl e ↦
              let (k, l) = and-true _ _ e in
              let key = and_held c.token (store.get now s c.key) k in
              let lock = and_held c.token (store.get now s c.lock) l in
              rw e (
                expire-IsHeld store now c.lock seconds _ c.key c.token now (now + seconds) n
                    (lengthened now c seconds s key),
                relocked now c seconds _
                    (lengthen-other now c.key seconds s c.lock (λ q. n (sym q)) ∙ lock),
              )
        ]
