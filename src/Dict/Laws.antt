-- ===== src/Dict/Laws.antt =====
-- What a lookup finds after each operation of a dictionary, and that keys stay unique.
use discord_chat_bot.Prelude.{
  ◌+◌, ◌≤◌, ◌≡◌, refl, none, some, [], ◌∷◌, ◌++◌, ite, lookup, length, length-append, arith, inl,
  inr, Option-cases,
}
use discord_chat_bot.Dict.{Dict, remove, set, move_to_end, IsUnique}

module _ {ℓ} {K V : Type ℓ} (dec : Discrete K) where
  pub lookup-remove :
      (k j : K) (d : Dict K V) → lookup dec j (remove dec k d) ≡ ite (dec j k) none (lookup dec j d)
  unfolding lookup remove
  lookup-remove k j [] = ground arith
  lookup-remove k j ((i, v) ∷ d) = ground (arith, lookup-remove k j d)

  pub lookup-set :
      (k j : K) (v : V) (d : Dict K V)
      → lookup dec j (set dec k v d) ≡ ite (dec j k) (some v) (lookup dec j d)
  unfolding lookup set
  lookup-set k j v [] = ground arith
  lookup-set k j v ((i, w) ∷ d) = ground (arith, lookup-set k j v d)

  pub lookup-push :
      (k j : K) (v : V) (d : Dict K V)
      → lookup dec k d ≡ none
      → lookup dec j (d ++ (k, v) ∷ []) ≡ ite (dec j k) (some v) (lookup dec j d)
  unfolding lookup
  lookup-push k j v [] h = ground arith
  lookup-push k j v ((i, w) ∷ d) h = ground (arith, lookup-push k j v d)

  lookup-remove_self : (k : K) (d : Dict K V) → lookup dec k (remove dec k d) ≡ none
  lookup-remove_self k d = ground (arith, lookup-remove k k d)

  pub lookup-move_to_end :
      (k j : K) (d : Dict K V) → lookup dec j (move_to_end dec k d) ≡ lookup dec j d
  unfolding move_to_end
  lookup-move_to_end k j d = elim (Option-cases (lookup dec k d)) [
    | inl e ↦ ground arith
    | inr (v, e) ↦
        ground
          (arith, lookup-push k j v (remove dec k d) (lookup-remove_self k d), lookup-remove k j d)
  ]

  pub remove_absent : (k : K) (d : Dict K V) → lookup dec k d ≡ none → remove dec k d ≡ d
  unfolding lookup remove
  remove_absent k [] h = refl
  remove_absent k ((j, v) ∷ d) h = ground (arith, remove_absent k d)

  pub length-remove :
      (k : K) (d : Dict K V) (v : V)
      → IsUnique dec d
      → lookup dec k d ≡ some v
      → length (remove dec k d) + 1 ≡ length d
  unfolding lookup remove
  length-remove k [] v u h = ground arith
  length-remove k ((j, w) ∷ d) v u h = ground (arith, length-remove k d v, remove_absent k d)

  pub length-set-le : (k : K) (v : V) (d : Dict K V) → length (set dec k v d) ≤ length d + 1
  unfolding set
  length-set-le k v [] = omega arith
  length-set-le k v ((j, w) ∷ d) = ground (arith, length-set-le k v d)

  pub lookup-set_same : (k : K) (v : V) (d : Dict K V) → lookup dec k (set dec k v d) ≡ some v
  lookup-set_same k v d =
      rw (lookup-set k k v d) (elim (dec k k) as (λ x. ite x (some v) (lookup dec k d) ≡ some v) [
        | yes e ↦ refl
        | no n ↦ absurd (n refl)
      ])

  pub length-remove-le : (k : K) (d : Dict K V) → length (remove dec k d) ≤ length d
  unfolding remove
  length-remove-le k [] = omega arith
  length-remove-le k ((j, w) ∷ d) = ground (arith, length-remove-le k d)

  pub remove-IsUnique : (k : K) (d : Dict K V) → IsUnique dec d → IsUnique dec (remove dec k d)
  unfolding remove
  remove-IsUnique k [] u = tt
  remove-IsUnique k ((j, w) ∷ d) u = ground (arith, remove-IsUnique k d u.1, lookup-remove k j d)

  pub push-IsUnique :
      (k : K) (v : V) (d : Dict K V)
      → lookup dec k d ≡ none
      → IsUnique dec d
      → IsUnique dec (d ++ (k, v) ∷ [])
  unfolding lookup
  push-IsUnique k v [] h u = (refl, tt)
  push-IsUnique k v ((j, w) ∷ d) h u = ground (arith, push-IsUnique k v d, lookup-push k j v d)

  pub set-IsUnique : (k : K) (v : V) (d : Dict K V) → IsUnique dec d → IsUnique dec (set dec k v d)
  unfolding set lookup
  set-IsUnique k v [] u = (refl, tt)
  set-IsUnique k v ((j, w) ∷ d) u = ground (arith, set-IsUnique k v d u.1, lookup-set k j v d)

  pub move_to_end-IsUnique :
      (k : K) (d : Dict K V) → IsUnique dec d → IsUnique dec (move_to_end dec k d)
  unfolding move_to_end
  move_to_end-IsUnique k d u = elim (Option-cases (lookup dec k d)) [
    | inl e ↦ ground arith
    | inr (v, e) ↦
        ground (
          arith,
          push-IsUnique k v (remove dec k d) (lookup-remove_self k d) (remove-IsUnique k d u),
        )
  ]

  pub move_to_end-some :
      (k : K) (d : Dict K V) (v : V)
      → lookup dec k d ≡ some v
      → move_to_end dec k d ≡ remove dec k d ++ (k, v) ∷ []
  unfolding move_to_end
  move_to_end-some k d v e = rw (e, move_to_end)

  move_to_end_absent : (k : K) (d : Dict K V) → lookup dec k d ≡ none → move_to_end dec k d ≡ d
  unfolding move_to_end
  move_to_end_absent k d e = rw (e, move_to_end)

  pub length-move_to_end :
      (k : K) (d : Dict K V) → IsUnique dec d → length (move_to_end dec k d) ≡ length d
  length-move_to_end k d u = elim (Option-cases (lookup dec k d)) [
    | inl e ↦ rw (move_to_end_absent k d e)
    | inr (v, e) ↦
        rw (move_to_end-some k d v e)
          (omega (arith, length-append (remove dec k d) ((k, v) ∷ []), length-remove k d v u e))
  ]
