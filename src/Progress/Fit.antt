-- ===== src/Progress/Fit.antt =====
-- The limits of Discord's messages and embeds, for what a transcript is drawn as.
use discord_chat_bot.Prelude.{
  ℕ, ◌+◌, ◌-◌, ◌≤◌, ◌<◌, ◌≡◌, inl, inr, refl, ap, min, max, true, false, none, some, List, [], ◌∷◌,
  ◌++◌, ltb, length, take, sum, map, All, length-append, length-take, length-drop, Bool-cases,
  Option-cases, arith,
}
use discord_chat_bot.Text.{Text, codes, join}
use discord_chat_bot.Progress.{Block, field_value_chars, tail, head}
use discord_chat_bot.Progress.Render.{
  FieldSpec, max_body_chars, max_fields, embed_char_budget, clip_body, field_for_block, field_name,
  field_value, value_parts, is_blank, cost, is_over, newest_fields,
}

pub length-tail : (s : Text) (cap : ℕ) → 2 ≤ cap → length (tail s cap) ≡ min (length s) cap
unfolding tail
length-tail s cap h = ground (arith, length-drop (length s - (cap - 2)) s)

pub length-head : (s : Text) (cap : ℕ) → 2 ≤ cap → length (head s cap) ≡ min (length s) cap
unfolding head
length-head s cap h =
    ground (arith, length-take (cap - 2) s, length-append (take (cap - 2) s) (codes "… "))

pub length-clip_body : (s : Text) → length (clip_body s) ≤ max_body_chars
unfolding clip_body
length-clip_body s = elim (Bool-cases (ltb max_body_chars (length s))) [
  | inl e ↦ rw e (
      omega (
        arith,
        length-take (max_body_chars - 1) s,
        length-append (take (max_body_chars - 1) s) (codes "…"),
      ))
  | inr e ↦ rw e (ground (arith, e))
]

-- Discord's limits on a field
unfoldable pub IsField : FieldSpec → Type 0
IsField f = (length f.name ≤ 256) × (length f.value ≤ field_value_chars)

length-field_value : (b : Block) → length (field_value b) ≤ field_value_chars
unfolding field_value
length-field_value b =
    let parts = join (10 ∷ 10 ∷ []) (value_parts b) in
    omega (arith, length-tail parts field_value_chars (omega arith))

field_for_block-IsField : (b : Block) (f : FieldSpec) → field_for_block b ≡ some f → IsField f
unfolding field_for_block IsField
field_for_block-IsField b f h = elim (Bool-cases (is_blank b)) [
  | inl e ↦ cc (rw e at h)
  | inr e ↦
      let shown : f ≡ record { name = take 256 (field_name b); value = field_value b } =
        cc (rw e at h) in
      rw shown (omega (arith, length-take 256 (field_name b)), length-field_value b)
]

-- the fields of the blocks that have one
unfoldable pub all_fields : List Block → List FieldSpec
all_fields [] = []
all_fields (b ∷ bs) = elim (field_for_block b) [ none ↦ all_fields bs | some f ↦ f ∷ all_fields bs ]

abbrev pub costs : List FieldSpec → ℕ
costs fs = sum (map cost fs)

module _ (b : Block) (bs : List Block) (count total : ℕ) where
  skip :
      field_for_block b ≡ none → newest_fields (b ∷ bs) count total ≡ newest_fields bs count total
  unfolding newest_fields
  skip e = rw (newest_fields, e) refl

  stop :
      (f : FieldSpec)
      → field_for_block b ≡ some f
      → is_over f count total ≡ true
      → newest_fields (b ∷ bs) count total ≡ []
  unfolding newest_fields
  stop f e k = rw (newest_fields, e, k) refl

  go_on :
      (f : FieldSpec)
      → field_for_block b ≡ some f
      → is_over f count total ≡ false
      → newest_fields (b ∷ bs) count total ≡ f ∷ newest_fields bs (count + 1) (total + cost f)
  unfolding newest_fields
  go_on f e k = rw (newest_fields, e, k) refl

pub skip_all :
    (b : Block) (bs : List Block) → field_for_block b ≡ none → all_fields (b ∷ bs) ≡ all_fields bs
unfolding all_fields
skip_all b bs e = rw (all_fields, e) refl

pub next_all :
    (b : Block) (bs : List Block) (f : FieldSpec)
    → field_for_block b ≡ some f
    → all_fields (b ∷ bs) ≡ f ∷ all_fields bs
unfolding all_fields
next_all b bs f e = rw (all_fields, e) refl

pub all_fields-nil : all_fields [] ≡ []
unfolding all_fields
all_fields-nil = refl

newest_fields-nil : (count total : ℕ) → newest_fields [] count total ≡ []
unfolding newest_fields
newest_fields-nil count total = refl

pub newest_fields-IsField :
    (bs : List Block) (count total : ℕ) → All IsField (newest_fields bs count total)
newest_fields-IsField [] count total = rw (newest_fields-nil count total) tt
newest_fields-IsField (b ∷ bs) count total = elim (Option-cases (field_for_block b)) [
  | inl e ↦ rw (skip b bs count total e) (newest_fields-IsField bs count total)
  | inr (f, e) ↦ elim (Bool-cases (is_over f count total)) [
    | inl k ↦ rw (stop b bs count total f e k) tt
    | inr k ↦
        rw (go_on b bs count total f e k)
          (field_for_block-IsField b f e, newest_fields-IsField bs (count + 1) (total + cost f))
  ]
]

-- the fields that are shown, and those that are left out
pub newest_fields-prefix :
    (bs : List Block) (count total : ℕ)
    → (older : List FieldSpec) × (all_fields bs ≡ newest_fields bs count total ++ older)
newest_fields-prefix [] count total = (all_fields [], rw (newest_fields-nil count total) refl)
newest_fields-prefix (b ∷ bs) count total = elim (Option-cases (field_for_block b)) [
  | inl e ↦ rw (skip b bs count total e, skip_all b bs e) (newest_fields-prefix bs count total)
  | inr (f, e) ↦ elim (Bool-cases (is_over f count total)) [
    | inl k ↦ (all_fields (b ∷ bs), rw (stop b bs count total f e k) refl)
    | inr k ↦
        let (older, q) = newest_fields-prefix bs (count + 1) (total + cost f) in
        (older, rw (go_on b bs count total f e k, next_all b bs f e) (ap (λ fs. f ∷ fs) q))
  ]
]

not_over :
    (f : FieldSpec) (count total : ℕ)
    → is_over f count total ≡ false
    → (count < max_fields) × (total + cost f ≤ embed_char_budget)
unfolding is_over
not_over f count total h = ground arith

pub newest_fields-fit :
    (bs : List Block) (count total : ℕ)
    → (count + length (newest_fields bs count total) ≤ max max_fields count)
      × (total + costs (newest_fields bs count total) ≤ max embed_char_budget total)
newest_fields-fit [] count total = rw (newest_fields-nil count total) (omega arith, omega arith)
newest_fields-fit (b ∷ bs) count total = elim (Option-cases (field_for_block b)) [
  | inl e ↦ rw (skip b bs count total e) (newest_fields-fit bs count total)
  | inr (f, e) ↦ elim (Bool-cases (is_over f count total)) [
    | inl k ↦ rw (stop b bs count total f e k) (omega arith, omega arith)
    | inr k ↦
        let (n, m) = newest_fields-fit bs (count + 1) (total + cost f) in
        let few : count < max_fields = (not_over f count total k).0 in
        let small : total + cost f ≤ embed_char_budget = (not_over f count total k).1 in
        rw (go_on b bs count total f e k) (omega (arith, n, few), omega (arith, m, small))
  ]
]
