-- ===== src/Progress/Shown.antt =====
-- Which of a run's fields its embed shows.
use discord_chat_bot.Prelude.{
  ℕ, ◌+◌, ◌≤◌, ◌≡◌, inl, inr, refl, sym, ap, ◌∙◌, max, List, [], ◌∷◌, ◌++◌, length, All, All-push,
  length-append, Option-cases, arith,
}
use mathlib.Core.List.{append-nil, append_assoc}
use discord_chat_bot.Progress.{Block, Transcript}
use discord_chat_bot.Progress.Render.{
  FieldSpec, max_body_chars, max_fields, embed_char_budget, render_body, field_for_block,
  newest_fields, reversed, base_chars, render_embed,
}
use discord_chat_bot.Progress.Fit.{
  IsField, all_fields, costs, length-clip_body, skip_all, next_all, all_fields-nil,
  newest_fields-prefix, newest_fields-fit, newest_fields-IsField,
}

module _ {ℓ} {A : Type ℓ} where
  reversed-append : (xs ys : List A) → reversed (xs ++ ys) ≡ reversed ys ++ reversed xs
  unfolding reversed
  reversed-append [] ys = sym (append-nil (reversed ys))
  reversed-append (x ∷ xs) ys =
      ap (λ l. l ++ x ∷ []) (reversed-append xs ys)
      ∙ append_assoc (reversed ys) (reversed xs) (x ∷ [])

  reversed-reversed : (xs : List A) → reversed (reversed xs) ≡ xs
  unfolding reversed
  reversed-reversed [] = refl
  reversed-reversed (x ∷ xs) =
      reversed-append (reversed xs) (x ∷ []) ∙ ap (λ l. x ∷ l) (reversed-reversed xs)

  length-reversed : (xs : List A) → length (reversed xs) ≡ length xs
  unfolding reversed
  length-reversed [] = refl
  length-reversed (x ∷ xs) = omega (arith, length-append (reversed xs) (x ∷ []), length-reversed xs)

  All-reversed {κ} : (P : A → Type κ) (xs : List A) → All P xs → All P (reversed xs)
  unfolding reversed
  All-reversed P [] h = tt
  All-reversed P (x ∷ xs) h = All-push P (reversed xs) x (All-reversed P xs h.1) h.0

costs-append : (fs gs : List FieldSpec) → costs (fs ++ gs) ≡ costs fs + costs gs
costs-append [] gs = omega arith
costs-append (f ∷ fs) gs = omega (arith, costs-append fs gs)

costs-reversed : (fs : List FieldSpec) → costs (reversed fs) ≡ costs fs
unfolding reversed
costs-reversed [] = refl
costs-reversed (f ∷ fs) = omega (arith, costs-append (reversed fs) (f ∷ []), costs-reversed fs)

all_fields-append : (bs cs : List Block) → all_fields (bs ++ cs) ≡ all_fields bs ++ all_fields cs
all_fields-append [] cs = rw all_fields-nil refl
all_fields-append (b ∷ bs) cs = elim (Option-cases (field_for_block b)) [
  | inl e ↦ rw (skip_all b (bs ++ cs) e, skip_all b bs e) (all_fields-append bs cs)
  | inr (f, e) ↦
      rw (next_all b (bs ++ cs) f e, next_all b bs f e)
        (ap (λ fs. f ∷ fs) (all_fields-append bs cs))
]

all_fields-reversed : (bs : List Block) → all_fields (reversed bs) ≡ reversed (all_fields bs)
unfolding reversed
all_fields-reversed [] = rw all_fields-nil refl
all_fields-reversed (b ∷ bs) = elim (Option-cases (field_for_block b)) [
  | inl e ↦
      rw
        (all_fields-append (reversed bs) (b ∷ []), skip_all b [] e, skip_all b bs e, all_fields-nil)
        (append-nil (all_fields (reversed bs)) ∙ all_fields-reversed bs)
  | inr (f, e) ↦
      rw
        (
          all_fields-append (reversed bs) (b ∷ []),
          next_all b [] f e,
          next_all b bs f e,
          all_fields-nil,
        )
        (ap (λ fs. fs ++ f ∷ []) (all_fields-reversed bs))
]

-- the fields of an embed: the end of all the run's fields
shown_fields :
    (bs : List Block) (total : ℕ)
    → (older : List FieldSpec) × (all_fields bs
        ≡ older ++ reversed (newest_fields (reversed bs) 0 total))
shown_fields bs total =
    let (older, q) = newest_fields-prefix (reversed bs) 0 total in
    let newest = newest_fields (reversed bs) 0 total in
    (
      reversed older,
      sym (reversed-reversed (all_fields bs))
          ∙ ap reversed (sym (all_fields-reversed bs) ∙ q)
          ∙ reversed-append newest older,
    )

-- The embed is within Discord's limits, as long as its title, its task and its footer are, and it
-- shows the newest of the run's fields.
pub render_embed-fits :
    (t : Transcript)
    → (length (render_embed t).fields ≤ max_fields)
      × All IsField (render_embed t).fields
      × (base_chars t + costs (render_embed t).fields ≤ max embed_char_budget (base_chars t))
      × ((older : List FieldSpec) × (all_fields t.blocks ≡ older ++ (render_embed t).fields))
unfolding render_embed
render_embed-fits t =
    let newest = newest_fields (reversed t.blocks) 0 (base_chars t) in
    let (n, m) = newest_fields-fit (reversed t.blocks) 0 (base_chars t) in
    (
      omega (arith, n, length-reversed newest),
      All-reversed IsField newest (newest_fields-IsField (reversed t.blocks) 0 (base_chars t)),
      omega (arith, m, costs-reversed newest),
      shown_fields t.blocks (base_chars t),
    )

pub render_body-bounded : (t : Transcript) → length (render_body t) ≤ max_body_chars
unfolding render_body
render_body-bounded t = length-clip_body _
