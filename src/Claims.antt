-- ===== src/Claims.antt =====
-- core/classes/automation_store.py: the claims of automations. Each of the store's Lua scripts is
-- one step of Redis, which is a `KeyStore`; times are in seconds. The tokens, which the source
-- draws at random, are arguments.
pub mod Keys
pub mod Held
pub mod Runs
pub mod Once
use discord_chat_bot.Prelude.{
  ℕ, zero, suc, ◌+◌, ◌≤◌, ◌<◌, ◌≡◌, ◌≢◌, max, Bool, true, false, ◌&&◌, ◌||◌, Option, none, some,
  List, [], ◌∷◌, ◌++◌, ltb, ◌==◌, if◌then◌else◌, ite, length,
}
use discord_chat_bot.Text.{Text, codes, Text-discrete}
use discord_chat_bot.Text.Number.{show}

-- Redis, as far as the claims use it, with the documented effect of each command on what a later
-- GET answers. The first argument is the server's time.
pub record KeyStore (S : Type 0) : Type 0 where
  pub get : ℕ → S → Text → Option Text
  pub set_ex : ℕ → Text → Text → ℕ → S → S
  pub del : Text → S → S
  pub ttl : ℕ → S → Text → ℕ
  pub expire : ℕ → Text → ℕ → S → S
  pub get-set_ex :
      (now : ℕ) (k v : Text) (seconds : ℕ) (s : S) (t : ℕ)
      → now ≤ t
      → t < now + seconds
      → get t (set_ex now k v seconds s) k ≡ some v
  pub get-set_ex_other :
      (now : ℕ) (k v : Text) (seconds : ℕ) (s : S) (t : ℕ) (j : Text)
      → j ≢ k
      → get t (set_ex now k v seconds s) j ≡ get t s j
  pub get-del : (k : Text) (s : S) (t : ℕ) → get t (del k s) k ≡ none
  pub get-del_other : (k : Text) (s : S) (t : ℕ) (j : Text) → j ≢ k → get t (del k s) j ≡ get t s j
  pub get-ttl :
      (now : ℕ) (s : S) (k : Text) (t : ℕ)
      → now ≤ t
      → t < now + ttl now s k
      → get t s k ≡ get now s k
  pub get-expire :
      (now : ℕ) (k : Text) (seconds : ℕ) (s : S) (t : ℕ)
      → now ≤ t
      → t < now + seconds
      → get t (expire now k seconds s) k ≡ get now s k
  pub get-expire_other :
      (now : ℕ) (k : Text) (seconds : ℕ) (s : S) (t : ℕ) (j : Text)
      → j ≢ k
      → get t (expire now k seconds s) j ≡ get t s j

-- The row of an automation, as far as its claims name it: "schedule" or "rule", and the ids.
pub record Row : Type 0 where
  pub kind : Text
  pub guild_id : ℕ
  pub ident : Text

abbrev pub prefix : Text
prefix = codes "dcb:automations:v1"

abbrev row_part : Row → Text
row_part row = show row.guild_id ++ (codes ":" ++ row.ident)

unfoldable pub claim_key : Row → Text → Text
claim_key row occurrence =
    prefix
    ++ (codes ":claim:" ++ (row.kind ++ (codes ":" ++ (row_part row ++ (codes ":" ++ occurrence)))))

unfoldable pub busy_key : Row → Text
busy_key row = prefix ++ (codes ":busy:" ++ row_part row)

unfoldable pub message_key : Row → ℕ → Text
message_key row message_id =
    prefix ++ (codes ":rule-message:" ++ (row_part row ++ (codes ":" ++ show message_id)))

unfoldable pub cooldown_key : Row → Text
cooldown_key row = prefix ++ (codes ":cooldown:" ++ row_part row)

-- what stands behind the pattern that the text starts with
unfoldable pub behind : Text → Text → Option Text
behind [] s = some s
behind (c ∷ p) [] = none
behind (c ∷ p) (d ∷ s) = let rest = behind p s in if c == d then rest else none

-- `s.replace(old, new)` for a text `old` that is not empty, on fuel
unfoldable pub replace_all : ℕ → Text → Text → Text → Text
replace_all zero old new s = s
replace_all (suc fuel) old new [] = []
replace_all (suc fuel) old new (c ∷ s) =
    let later = c ∷ replace_all fuel old new s in
    elim (behind old (c ∷ s)) [ none ↦ later | some rest ↦ new ++ replace_all fuel old new rest ]

-- a key, the lock's key, and the token
pub record Claim : Type 0 where
  pub key : Text
  pub lock : Text
  pub token : Text

abbrev pub is_some {ℓ} : {A : Type ℓ} → Option A → Bool
is_some none = false
is_some (some a) = true

abbrev pub is_token : Text → Option Text → Bool
is_token token none = false
is_token token (some v) = ite (Text-discrete v token) true false

unfoldable pub cancelled_keys : Claim → Bool → List Text
cancelled_keys c rule =
    c.key
    ∷ c.lock
    ∷ (if rule
        then replace_all (length c.lock) (codes ":busy:") (codes ":cooldown:") c.lock ∷ []
        else [])

module _ {S : Type 0} (store : KeyStore S) where
  unfoldable pub claim : ℕ → Row → Text → Text → ℕ → S → Option Claim × S
  claim now row occurrence token seconds s =
      let key = claim_key row occurrence in
      let lock = busy_key row in
      if is_some (store.get now s key) || is_some (store.get now s lock) then (none, s) else (
        some (record { key = key; lock = lock; token = token }),
        store.set_ex now lock token seconds (store.set_ex now key token seconds s),
      )

  unfoldable pub del_owned : ℕ → Text → Text → S → S
  del_owned now token key s = if is_token token (store.get now s key) then store.del key s else s

  unfoldable pub release : ℕ → Option Claim → S → S
  release now none s = s
  release now (some c) s = del_owned now c.token c.lock s

  unfoldable pub del_all_owned : ℕ → Text → List Text → S → S
  del_all_owned now token [] s = s
  del_all_owned now token (k ∷ ks) s = del_all_owned now token ks (del_owned now token k s)

  unfoldable pub cancel_claim : ℕ → Claim → Bool → S → S
  cancel_claim now c rule s = del_all_owned now c.token (cancelled_keys c rule) s

  unfoldable pub lengthen : ℕ → Text → ℕ → S → S
  lengthen now key seconds s =
      if ltb (store.ttl now s key) seconds then store.expire now key seconds s else s

  unfoldable pub renew : ℕ → Claim → ℕ → S → Bool × S
  renew now c seconds s =
      if is_token c.token (store.get now s c.key) && is_token c.token (store.get now s c.lock)
      then (true, store.expire now c.lock seconds (lengthen now c.key seconds s))
      else (false, s)

  unfoldable pub claim_rule : ℕ → Row → ℕ → Text → ℕ → S → Option Claim × S
  claim_rule now row message_id token cooldown s =
      let key = message_key row message_id in
      let busy = busy_key row in
      let cd = cooldown_key row in
      if is_some (store.get now s key)
        || (is_some (store.get now s busy) || is_some (store.get now s cd))
      then (none, s)
      else (
        some (record { key = key; lock = busy; token = token }),
        store.set_ex now cd token (max 1 cooldown)
            (store.set_ex now busy token 900 (store.set_ex now key token 86400 s)),
      )

-- What the workers do to the store.
pub data Op : Type 0 where
  claims : Row → Text → Text → ℕ → Op
  claims_rule : Row → ℕ → Text → ℕ → Op
  releases : Option Claim → Op
  cancels : Claim → Bool → Op
  renews : Claim → ℕ → Op

unfoldable pub step : {S : Type 0} → KeyStore S → ℕ → Op → S → S
step store now (claims row occurrence token seconds) s =
    (claim store now row occurrence token seconds s).1
step store now (claims_rule row message_id token cooldown) s =
    (claim_rule store now row message_id token cooldown s).1
step store now (releases c) s = release store now c s
step store now (cancels c rule) s = cancel_claim store now c rule s
step store now (renews c seconds) s = (renew store now c seconds s).1

unfoldable pub steps : {S : Type 0} → KeyStore S → List (ℕ × Op) → S → S
steps store [] s = s
steps store ((now, op) ∷ ops) s = steps store ops (step store now op s)
