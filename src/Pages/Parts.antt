-- ===== src/Pages/Parts.antt =====
-- split_parts of core/classes/web_policy.py.
use discord_chat_bot.Prelude.{
  ℕ, ◌+◌, ◌/◌, ◌≤◌, ◌<◌, ◌≡◌, inl, inr, refl, ap, ◌∙◌, Option, none, some, List, [], ◌∷◌, ◌++◌,
  zero, suc, leb, length, length-take, length-drop, take, drop, All, Bool-cases, Option-cases,
  arith,
}
use discord_chat_bot.Text.{Text}
use discord_chat_bot.Pages.{
  rfind_from, rfind, cut_of, end_of, piece_length, split_loop, split_parts,
}

abbrev pub concat : List Text → Text
concat [] = []
concat (p ∷ ps) = p ++ concat ps

take-drop : (n : ℕ) (xs : Text) → take n xs ++ drop n xs ≡ xs
take-drop zero xs = refl
take-drop (suc n) [] = refl
take-drop (suc n) (x ∷ xs) = ap (λ ys. x ∷ ys) (take-drop n xs)

-- An index that is found lies in the window.
rfind_from-lt :
    (c low at : ℕ) (xs : Text) (i : ℕ) → rfind_from c low at xs ≡ some i → i < at + length xs
unfolding rfind_from
rfind_from-lt c low at [] i h = ground arith
rfind_from-lt c low at (x ∷ xs) i h = elim (Option-cases (rfind_from c low (at + 1) xs)) [
  | inl e ↦ ground arith
  | inr (j, e) ↦ ground (arith, rfind_from-lt c low (at + 1) xs j e)
]

cut_of-lt : (size : ℕ) (window : Text) (i : ℕ) → cut_of size window ≡ some i → i < length window
unfolding cut_of rfind
cut_of-lt size window i h = elim (Option-cases (rfind_from 10 (size / 2) 0 window)) [
  | inl e ↦ ground (arith, rfind_from-lt 32 (size / 2) 0 window i)
  | inr (j, e) ↦ ground (arith, rfind_from-lt 10 (size / 2) 0 window i)
]

end_of-bounds :
    (size : ℕ) (cut : Option ℕ)
    → 0 < size
    → ((i : ℕ) → cut ≡ some i → i < size)
    → (0 < end_of size cut) × (end_of size cut ≤ size)
unfolding end_of
end_of-bounds size none h k = (h, omega arith)
end_of-bounds size (some zero) h k = (h, omega arith)
end_of-bounds size (some (suc i)) h k = (omega arith, omega (arith, k (suc i) refl))

-- A part is not empty and fits.
piece_length-bounds :
    (size x : ℕ) (xs : Text)
    → 0 < size
    → (0 < piece_length size (x ∷ xs)) × (piece_length size (x ∷ xs) ≤ size)
unfolding piece_length
piece_length-bounds size x xs h = elim (Bool-cases (leb (length (x ∷ xs)) size)) [
  | inl e ↦ rw (e, piece_length) (omega arith, ground arith)
  | inr e ↦
      let window = take size (x ∷ xs) in
      rw (e, piece_length)
        (end_of-bounds size (cut_of size window) h
          (λ i q. omega (arith, cut_of-lt size window i q, length-take size (x ∷ xs))))
]

append_nil : (xs : Text) → xs ++ [] ≡ xs
append_nil [] = refl
append_nil (x ∷ xs) = ap (λ ys. x ∷ ys) (append_nil xs)

module _ (size : ℕ) (h : 0 < size) where
  weaken :
      (ps : List Text)
      → All (λ p. (0 < length p) × (length p ≤ size)) ps
      → All (λ p. length p ≤ size) ps
  weaken [] k = tt
  weaken (p ∷ ps) k = (k.0.1, weaken ps k.1)

  concat-split_loop :
      (fuel : ℕ) (rest : Text) → length rest ≤ fuel → concat (split_loop fuel size rest) ≡ rest
  unfolding split_loop
  concat-split_loop zero [] k = refl
  concat-split_loop zero (x ∷ xs) k = ground arith
  concat-split_loop (suc fuel) [] k = refl
  concat-split_loop (suc fuel) (x ∷ xs) k =
      let n = piece_length size (x ∷ xs) in
      let left = drop n (x ∷ xs) in
      let less : length left ≤ fuel =
        omega (arith, length-drop n (x ∷ xs), (piece_length-bounds size x xs h).0, k) in
      ap (λ ys. take n (x ∷ xs) ++ ys) (concat-split_loop fuel left less) ∙ take-drop n (x ∷ xs)

  split_loop-bounds :
      (fuel : ℕ) (rest : Text)
      → All (λ p. (0 < length p) × (length p ≤ size)) (split_loop fuel size rest)
  unfolding split_loop
  split_loop-bounds zero rest = tt
  split_loop-bounds (suc fuel) [] = tt
  split_loop-bounds (suc fuel) (x ∷ xs) =
      let n = piece_length size (x ∷ xs) in
      let bounds = piece_length-bounds size x xs h in
      let taken = length-take n (x ∷ xs) in
      (
        (omega (arith, bounds.0, taken), omega (arith, bounds.1, taken)),
        split_loop-bounds fuel (drop n (x ∷ xs)),
      )

  -- The parts of a text, put together, are the text: none of it is lost or shown twice.
  pub concat-split_parts : (text : Text) → concat (split_parts text size) ≡ text
  unfolding split_parts
  concat-split_parts text = elim (Bool-cases (leb (length text) size)) [
    | inl e ↦ rw (e, split_parts) (append_nil text)
    | inr e ↦ rw (e, split_parts) (concat-split_loop (length text) text (omega arith))
  ]

  -- Each part has at most `size` characters.
  pub split_parts-bounded : (text : Text) → All (λ p. length p ≤ size) (split_parts text size)
  unfolding split_parts
  split_parts-bounded text = elim (Bool-cases (leb (length text) size)) [
    | inl e ↦ rw (e, split_parts) (ground arith, tt)
    | inr e ↦
        rw (e, split_parts)
          (weaken (split_loop (length text) size text) (split_loop-bounds (length text) text))
  ]
