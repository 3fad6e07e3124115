-- ===== src/Voice/Sound.antt =====
-- core/classes/voice_policy.py: how alike two phrases sound. A word is lower-case letters, digits and
-- apostrophes; costs are in quarters of an edit.
pub mod Distance
use discord_chat_bot.Prelude.{
  ℕ, ◌+◌, ◌*◌, Bool, true, false, ◌||◌, List, [], ◌∷◌, ◌==◌, if◌then◌else◌, min, any, ite, ◌&&◌,
}
use discord_chat_bot.Text.{Text, codes, Text-discrete}

-- `word.replace(ab, r)`, for two letters and one
unfoldable pub replace_two : ℕ → ℕ → ℕ → Text → Text
replace_two a b r [] = []
replace_two a b r (x ∷ []) = x ∷ []
replace_two a b r (x ∷ y ∷ s) =
    let found = r ∷ replace_two a b r s in
    let kept = x ∷ replace_two a b r (y ∷ s) in if x == a && y == b then found else kept

-- runs of one letter become one
unfoldable pub collapse : Text → Text
collapse [] = []
collapse (x ∷ []) = x ∷ []
collapse (x ∷ y ∷ s) = let rest = collapse (y ∷ s) in if x == y then rest else x ∷ rest

-- "ie", "ey", "ee", "i" or "y" at the end becomes "y"
unfoldable pub is_ee : Text → Bool
is_ee s =
    any (λ end. ite (Text-discrete s end) true false)
      (codes "ie" ∷ codes "ey" ∷ codes "ee" ∷ codes "i" ∷ codes "y" ∷ [])

unfoldable pub unify_end : Text → Text
unfolding is_ee
unify_end [] = []
unify_end (x ∷ s) = let rest = unify_end s in if is_ee (x ∷ s) then 121 ∷ [] else x ∷ rest

-- `_key`; 112, 104, 102 and 99, 107 are p, h, f and c, k
unfoldable pub key : Text → Text
unfolding replace_two collapse unify_end
key word = unify_end (collapse (replace_two 99 107 107 (replace_two 112 104 102 word)))

abbrev pub is_vowel : ℕ → Bool
is_vowel c = c == 97 || c == 101 || c == 105 || c == 111 || c == 117

abbrev pub edit : ℕ
edit = 4

abbrev pub vowel_swap_cost : ℕ
vowel_swap_cost = 1

abbrev pub swap_cost : ℕ → ℕ → ℕ
swap_cost x y = if x == y then 0 else if is_vowel x && is_vowel y then vowel_swap_cost else edit

-- the inner loop: the rest of the row for the letter `x`, after its entry `left`
unfoldable pub row_rest : ℕ → ℕ → List ℕ → Text → List ℕ
row_rest x left (p ∷ q ∷ previous) (y ∷ b) =
    let entry = min (min (q + edit) (left + edit)) (p + swap_cost x y) in
    entry ∷ row_rest x entry (q ∷ previous) b
row_rest x left previous b = []

-- the outer loop, at the letter with the index `i`, counted from 1
unfoldable pub rows : ℕ → Text → Text → List ℕ → List ℕ
unfolding row_rest
rows i [] b previous = previous
rows i (x ∷ a) b previous = rows (i + 1) a b (i * edit ∷ row_rest x (i * edit) previous b)

unfoldable pub first_row : ℕ → Text → List ℕ
first_row at [] = at ∷ []
first_row at (y ∷ b) = at ∷ first_row (at + edit) b

abbrev pub last_entry : List ℕ → ℕ
last_entry [] = 0
last_entry (x ∷ []) = x
last_entry (x ∷ y ∷ xs) = last_entry (y ∷ xs)

-- `previous[-1]` at the end
unfoldable pub edit_distance : Text → Text → ℕ
unfolding rows first_row
edit_distance a b = last_entry (rows 1 a b (first_row 0 b))
