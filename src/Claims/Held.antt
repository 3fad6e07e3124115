-- ===== src/Claims/Held.antt =====
-- How long a claim keeps its lock, whatever the other workers do.
use discord_chat_bot.Prelude.{
  ℕ, ◌≤◌, ◌<◌, ◌≡◌, ◌≢◌, ◌⊎◌, inl, inr, sym, subst, ◌∙◌, max, true, false, ◌&&◌, ◌||◌, some, List,
  [], ◌∷◌, ltb, ite, Bool-cases, and-true, or-false, arith,
}
use discord_chat_bot.Text.{Text, Text-discrete}
use discord_chat_bot.Claims.{
  KeyStore, Row, claim_key, busy_key, message_key, cooldown_key, Claim, is_some, is_token, claim,
  del_owned, release, del_all_owned, lengthen, renew, claim_rule,
}

pub is_token-some : (token v : Text) → is_token token (some v) ≡ true → v ≡ token
is_token-some token v h =
    elim (Text-discrete v token) as (λ d. ite d true false ≡ true → v ≡ token) [
      | yes e ↦ λ _. e
      | no n ↦ λ k. cc k
    ]
      h

module _ {S : Type 0} (store : KeyStore S) where
  -- the key has the value at every time from the one to the other
  unfoldable pub IsHeld : S → Text → Text → ℕ → ℕ → Type 0
  IsHeld s key token from until = (t : ℕ) → from ≤ t → t < until → store.get t s key ≡ some token

  pub IsHeld-later :
      (s : S) (key token : Text) (from from' until : ℕ)
      → from ≤ from'
      → IsHeld s key token from until
      → IsHeld s key token from' until
  unfolding IsHeld
  IsHeld-later s key token from from' until le h t a b = h t (omega (arith, le, a)) b

  -- a key other than the lock is written, deleted or lengthened
  pub set_ex-IsHeld :
      (now : ℕ) (k v : Text) (seconds : ℕ) (s : S) (key token : Text) (from until : ℕ)
      → key ≢ k
      → IsHeld s key token from until
      → IsHeld (store.set_ex now k v seconds s) key token from until
  unfolding IsHeld
  set_ex-IsHeld now k v seconds s key token from until n h t a b =
      store.get-set_ex_other now k v seconds s t key n ∙ h t a b

  pub expire-IsHeld :
      (now : ℕ) (k : Text) (seconds : ℕ) (s : S) (key token : Text) (from until : ℕ)
      → key ≢ k
      → IsHeld s key token from until
      → IsHeld (store.expire now k seconds s) key token from until
  unfolding IsHeld
  expire-IsHeld now k seconds s key token from until n h t a b =
      store.get-expire_other now k seconds s t key n ∙ h t a b

  module _ (now : ℕ) (s : S) (lock token : Text) (until : ℕ) (live : now < until)
      (h : IsHeld s lock token now until) where
    held_now : store.get now s lock ≡ some token
    unfolding IsHeld
    held_now = h now (omega arith) live

    -- a key that has another token's value is not the lock
    other_key :
        (k token' : Text) → token' ≢ token → is_token token' (store.get now s k) ≡ true → lock ≢ k
    other_key k token' n e q =
        let k_held : store.get now s k ≡ some token =
          subst (λ j. store.get now s j ≡ some token) q held_now in
        n (sym (is_token-some token' token (rw k_held at e)))

    -- nor is a key that has no value
    free_key : (k : Text) → is_some (store.get now s k) ≡ false → lock ≢ k
    free_key k e q =
        let k_held : store.get now s k ≡ some token =
          subst (λ j. store.get now s j ≡ some token) q held_now in
        cc (rw k_held at e)

    del_owned-IsHeld :
        (k token' : Text)
        → token' ≢ token
        → IsHeld (del_owned store now token' k s) lock token now until
    unfolding del_owned IsHeld
    del_owned-IsHeld k token' n = elim (Bool-cases (is_token token' (store.get now s k))) [
      | inl e ↦ rw e (λ t a b. store.get-del_other k s t lock (other_key k token' n e) ∙ h t a b)
      | inr e ↦ rw e h
    ]

    foreign :
        (token' k : Text) (seconds : ℕ) (s' : S)
        → lock ≢ k
        → IsHeld s' lock token now until
        → IsHeld (store.set_ex now k token' seconds s') lock token now until
    foreign token' k seconds s' n h' =
        set_ex-IsHeld now k token' seconds s' lock token now until n h'

    pub claim-IsHeld :
        (other : Row) (occurrence token' : Text) (seconds : ℕ)
        → IsHeld (claim store now other occurrence token' seconds s).1 lock token now until
    unfolding claim
    claim-IsHeld other occurrence token' seconds =
        elim (Bool-cases (
          is_some (store.get now s (claim_key other occurrence))
          || is_some (store.get now s (busy_key other)))) [
            | inl e ↦ rw e h
            | inr e ↦
                let (new, free) = or-false _ _ e in
                rw e (
                  foreign token' (busy_key other) seconds _ (free_key (busy_key other) free) (
                    foreign token' (claim_key other occurrence) seconds s
                      (free_key (claim_key other occurrence) new) h))
          ]

    pub claim_rule-IsHeld :
        (other : Row) (message_id : ℕ) (token' : Text) (cooldown : ℕ)
        → IsHeld (claim_rule store now other message_id token' cooldown s).1 lock token now until
    unfolding claim_rule
    claim_rule-IsHeld other message_id token' cooldown =
        elim (Bool-cases (
          is_some (store.get now s (message_key other message_id))
          || (is_some (store.get now s (busy_key other))
              || is_some (store.get now s (cooldown_key other))))) [
                | inl e ↦ rw e h
                | inr e ↦
                    let (new, rest) = or-false _ _ e in
                    let (free, cool) = or-false _ _ rest in
                    rw e (
                      foreign token' (cooldown_key other) (max 1 cooldown) _
                        (free_key (cooldown_key other) cool)
                        (foreign token' (busy_key other) 900 _ (free_key (busy_key other) free) (
                          foreign token' (message_key other message_id) 86400 s
                            (free_key (message_key other message_id) new) h)))
              ]

    lengthen-IsHeld :
        (k : Text) (seconds : ℕ)
        → lock ≢ k
        → IsHeld (lengthen store now k seconds s) lock token now until
    unfolding lengthen
    lengthen-IsHeld k seconds n = elim (Bool-cases (ltb (store.ttl now s k) seconds)) [
      | inl e ↦ rw e (expire-IsHeld now k seconds s lock token now until n h)
      | inr e ↦ rw e h
    ]

    pub renew-IsHeld :
        (c : Claim) (seconds : ℕ)
        → c.token ≢ token
        → IsHeld (renew store now c seconds s).1 lock token now until
    unfolding renew
    renew-IsHeld c seconds n =
        elim (Bool-cases
          (is_token c.token (store.get now s c.key) && is_token c.token (store.get now s c.lock))) [
            | inr e ↦ rw e h
            | inl e ↦
                let (key, held) = and-true _ _ e in
                rw e (
                  expire-IsHeld now c.lock seconds _ lock token now until
                    (other_key c.lock c.token n held)
                    (lengthen-IsHeld c.key seconds (other_key c.key c.token n key)))
          ]

    pub release-IsHeld :
        (c : Claim)
        → (c.token ≢ token) ⊎ (lock ≢ c.lock)
        → IsHeld (release store now (some c) s) lock token now until
    unfolding release del_owned IsHeld
    release-IsHeld c (inl n) = del_owned-IsHeld c.lock c.token n
    release-IsHeld c (inr n) = elim (Bool-cases (is_token c.token (store.get now s c.lock))) [
      | inl e ↦ rw e (λ t a b. store.get-del_other c.lock s t lock n ∙ h t a b)
      | inr e ↦ rw e h
    ]

  pub del_all_owned-IsHeld :
      (now : ℕ) (lock token : Text) (until : ℕ) (token' : Text)
      → now < until
      → token' ≢ token
      → (ks : List Text) (s : S) → IsHeld s lock token now until
      → IsHeld (del_all_owned store now token' ks s) lock token now until
  unfolding del_all_owned
  del_all_owned-IsHeld now lock token until token' live n [] s h = h
  del_all_owned-IsHeld now lock token until token' live n (k ∷ ks) s h =
      del_all_owned-IsHeld now lock token until token' live n ks (del_owned store now token' k s)
        (del_owned-IsHeld now s lock token until live h k token' n)
