-- ===== src/Tests/KeyValues.antt =====
-- The claims' Redis as a function from keys, which meets the laws that the store relies on.
use discord_chat_bot.Prelude.{
  ℕ, ◌+◌, ◌-◌, ◌≤◌, ◌<◌, ◌≡◌, ◌≢◌, refl, Option, none, some, ltb, if◌then◌else◌, ite, arith,
}
use discord_chat_bot.Text.{Text, Text-discrete}
use discord_chat_bot.Claims.{KeyStore}

-- a value with the time it runs out at
abbrev pub Value : Type 0
Value = Option (Text × ℕ)

abbrev pub alive : ℕ → Value → Option Text
alive t none = none
alive t (some (v, until)) = if ltb t until then some v else none

abbrev pub left : ℕ → Value → ℕ
left now none = 0
left now (some (v, until)) = until - now

abbrev pub prolonged : ℕ → ℕ → Value → Value
prolonged now seconds none = none
prolonged now seconds (some (v, until)) =
    if ltb now until then some (v, now + seconds) else some (v, until)

abbrev pub Store : Type 0
Store = Text → Value

abbrev pub put : Text → Value → Store → Store
put k e s = λ j. ite (Text-discrete j k) e (s j)

pub put-same : (k : Text) (e : Value) (s : Store) → put k e s k ≡ e
put-same k e s = elim (Text-discrete k k) as (λ d. ite d e (s k) ≡ e) [
  | yes p ↦ refl
  | no n ↦ absurd (n refl)
]

pub put-other : (k : Text) (e : Value) (s : Store) (j : Text) → j ≢ k → put k e s j ≡ s j
put-other k e s j m = elim (Text-discrete j k) as (λ d. ite d e (s j) ≡ s j) [
  | yes p ↦ absurd (m p)
  | no n ↦ refl
]

pub alive-left :
    (now : ℕ) (e : Value) (t : ℕ) → now ≤ t → t < now + left now e → alive t e ≡ alive now e
alive-left now none t a b = refl
alive-left now (some (v, until)) t a b = ground arith

pub alive-prolonged :
    (now seconds : ℕ) (e : Value) (t : ℕ)
    → now ≤ t
    → t < now + seconds
    → alive t (prolonged now seconds e) ≡ alive now e
alive-prolonged now seconds none t a b = refl
alive-prolonged now seconds (some (v, until)) t a b = ground arith

abbrev pub entries : KeyStore Store
entries = record {
  get = λ t s k. alive t (s k);
  set_ex = λ now k v seconds s. put k (some (v, now + seconds)) s;
  del = λ k s. put k none s;
  ttl = λ now s k. left now (s k);
  expire = λ now k seconds s. put k (prolonged now seconds (s k)) s;
  get-set_ex =
      λ now k v seconds s t a b. rw (put-same k (some (v, now + seconds)) s) (ground arith);
  get-set_ex_other =
      λ now k v seconds s t j n. rw (put-other k (some (v, now + seconds)) s j n) refl;
  get-del = λ k s t. rw (put-same k none s) refl;
  get-del_other = λ k s t j n. rw (put-other k none s j n) refl;
  get-ttl = λ now s k t a b. alive-left now (s k) t a b;
  get-expire = λ now k seconds s t a b.
      rw (put-same k (prolonged now seconds (s k)) s) (alive-prolonged now seconds (s k) t a b);
  get-expire_other =
      λ now k seconds s t j n. rw (put-other k (prolonged now seconds (s k)) s j n) refl;
}
