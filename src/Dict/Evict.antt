-- ===== src/Dict/Evict.antt =====
-- The eviction loop: it keeps the newest entries, as many as the limit allows.
use discord_chat_bot.Prelude.{
  ℕ, suc, ◌-◌, ◌≤◌, min, ◌≡◌, refl, none, some, [], ◌∷◌, ◌++◌, lookup, length, drop, arith, false,
  ltb, ltb→lt, Bool-cases, inl, inr, ◌<◌,
}
use discord_chat_bot.Dict.Laws.{lookup-push}
use discord_chat_bot.Dict.{Dict, evict, IsUnique}

suc_sub : (limit n : ℕ) → limit < suc n → suc n - limit ≡ suc (n - limit)
suc_sub limit n h = omega arith

sub_none : (limit n : ℕ) → ltb limit (suc n) ≡ false → suc n - limit ≡ 0
sub_none limit n h = ground arith

module _ {ℓ} {K V : Type ℓ} where
  pub evict-eq-drop : (limit : ℕ) (d : Dict K V) → evict limit d ≡ drop (length d - limit) d
  unfolding evict
  evict-eq-drop limit [] = ground arith
  evict-eq-drop limit (e ∷ d) = elim (Bool-cases (ltb limit (length (e ∷ d)))) [
    | inl over ↦ rw (over, suc_sub limit (length d) (ltb→lt _ _ over)) (evict-eq-drop limit d)
    | inr fits ↦ rw (fits, sub_none limit (length d) fits)
  ]

  pub length-evict : (limit : ℕ) (d : Dict K V) → length (evict limit d) ≡ min limit (length d)
  unfolding evict
  length-evict limit [] = omega arith
  length-evict limit (e ∷ d) = ground (arith, length-evict limit d)

  pub evict_within : (limit : ℕ) (d : Dict K V) → length d ≤ limit → evict limit d ≡ d
  unfolding evict
  evict_within limit [] h = refl
  evict_within limit (e ∷ d) h = ground arith

module _ {ℓ} {K V : Type ℓ} (dec : Discrete K) where
  -- What an eviction keeps it keeps as it is.
  pub lookup-evict :
      (limit : ℕ) (d : Dict K V) (k : K) (v : V)
      → IsUnique dec d
      → lookup dec k (evict limit d) ≡ some v
      → lookup dec k d ≡ some v
  unfolding evict lookup
  lookup-evict limit [] k v u h = h
  lookup-evict limit ((j, w) ∷ d) k v u h = ground (arith, lookup-evict limit d k v u.1)

  pub lookup-evict-none :
      (limit : ℕ) (d : Dict K V) (k : K)
      → lookup dec k d ≡ none
      → lookup dec k (evict limit d) ≡ none
  unfolding evict lookup
  lookup-evict-none limit [] k h = h
  lookup-evict-none limit ((j, w) ∷ d) k h = ground (arith, lookup-evict-none limit d k)

  pub evict-IsUnique : (limit : ℕ) (d : Dict K V) → IsUnique dec d → IsUnique dec (evict limit d)
  unfolding evict
  evict-IsUnique limit [] u = tt
  evict-IsUnique limit ((j, w) ∷ d) u = ground (arith, evict-IsUnique limit d u.1)

  -- The newest entry stays, where the limit has room for one.
  pub lookup-evict-push :
      (limit : ℕ) (d : Dict K V) (k : K) (v : V)
      → 0 < limit
      → lookup dec k d ≡ none
      → lookup dec k (evict limit (d ++ (k, v) ∷ [])) ≡ some v
  unfolding evict lookup
  lookup-evict-push limit [] k v h n = ground arith
  lookup-evict-push limit ((j, w) ∷ d) k v h n =
      elim (Bool-cases (ltb limit (suc (length (d ++ (k, v) ∷ []))))) [
        | inl over ↦ rw over (lookup-evict-push limit d k v h (ground arith))
        | inr fits ↦ rw fits (ground (arith, lookup-push dec k k v ((j, w) ∷ d) n))
      ]
