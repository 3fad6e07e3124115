-- ===== src/Text/Laws.antt =====
-- What the text methods give: bounds on lengths, and which characters are left.
use discord_chat_bot.Prelude.{
  ℕ, ◌≤◌, suc, zero, take, inl, inr, Bool-cases, List, [], ◌∷◌, ◌++◌, length, All, arith,
}
use discord_chat_bot.Text.{Text, lstrip, rstrip, strip, split_from, split, join, flush, is_space}

length-lstrip-le : (s : Text) → length (lstrip s) ≤ length s
unfolding lstrip
length-lstrip-le [] = omega arith
length-lstrip-le (c ∷ s) = ground (arith, length-lstrip-le s)

length-rstrip-le : (s : Text) → length (rstrip s) ≤ length s
unfolding rstrip
length-rstrip-le [] = omega arith
length-rstrip-le (c ∷ s) = ground (arith, length-rstrip-le s)

pub length-strip-le : (s : Text) → length (strip s) ≤ length s
unfolding strip
length-strip-le s = omega (arith, length-rstrip-le (lstrip s), length-lstrip-le s)

module _ (P : ℕ → Type 0) where
  pub All-append : (s t : Text) → All P s → All P t → All P (s ++ t)
  All-append [] t h k = k
  All-append (c ∷ s) t h k = (h.0, All-append s t h.1 k)

  pub All-take : (n : ℕ) (s : Text) → All P s → All P (take n s)
  All-take zero s h = tt
  All-take (suc n) [] h = tt
  All-take (suc n) (c ∷ s) h = (h.0, All-take n s h.1)

  All-flush : (w : Text) (ws : List Text) → All P w → All (All P) ws → All (All P) (flush w ws)
  All-flush [] ws h k = k
  All-flush (c ∷ w) ws h k = (h, k)

  All-split_from : (w s : Text) → All P w → All P s → All (All P) (split_from w s)
  unfolding split_from
  All-split_from w [] h k = All-flush w [] h tt
  All-split_from w (c ∷ s) h k = elim (Bool-cases (is_space c)) [
    | inl e ↦ rw e (All-flush w (split_from [] s) h (All-split_from [] s tt k.1))
    | inr e ↦ rw e (All-split_from (w ++ c ∷ []) s (All-append w (c ∷ []) h (k.0, tt)) k.1)
  ]

  pub All-split : (s : Text) → All P s → All (All P) (split s)
  unfolding split
  All-split s h = All-split_from [] s tt h

  pub All-join : (sep : Text) (ws : List Text) → All P sep → All (All P) ws → All P (join sep ws)
  unfolding join
  All-join sep [] h k = tt
  All-join sep (w ∷ []) h k = k.0
  All-join sep (w ∷ v ∷ ws) h k =
      All-append w (sep ++ join sep (v ∷ ws)) k.0
        (All-append sep (join sep (v ∷ ws)) h (All-join sep (v ∷ ws) h k.1))
