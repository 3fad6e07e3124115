-- ===== src/Voice/Sound/Distance.antt =====
-- The table of _ratio in core/classes/voice_policy.py, and a recursive definition of edit distance.
use discord_chat_bot.Prelude.{
  ℕ, ◌+◌, ◌*◌, ◌≡◌, refl, sym, ap, ◌∙◌, List, [], ◌∷◌, length, min, arith,
}
use discord_chat_bot.Text.{Text}
use discord_chat_bot.Voice.Sound.{
  edit, swap_cost, row_rest, rows, first_row, last_entry, edit_distance,
}

-- The least cost of edits that make one text the other, both read from the end.
unfoldable pub cost : Text → Text → ℕ
cost [] [] = 0
cost [] (y ∷ b) = cost [] b + edit
cost (x ∷ a) [] = cost a [] + edit
cost (x ∷ a) (y ∷ b) =
    min (min (cost a (y ∷ b) + edit) (cost (x ∷ a) b + edit)) (cost a b + swap_cost x y)

-- The costs of what was read and all that may follow, one letter more in each.
abbrev costs : Text → Text → Text → List ℕ
costs a seen [] = cost a seen ∷ []
costs a seen (y ∷ b) = cost a seen ∷ costs a (y ∷ seen) b

abbrev later_costs : Text → Text → Text → List ℕ
later_costs a seen [] = []
later_costs a seen (y ∷ b) = costs a (y ∷ seen) b

row_rest-costs :
    (x : ℕ) (a seen b : Text)
    → row_rest x (cost (x ∷ a) seen) (costs a seen b) b ≡ later_costs (x ∷ a) seen b
unfolding row_rest cost
row_rest-costs x a seen [] = refl
row_rest-costs x a seen (y ∷ []) = refl
row_rest-costs x a seen (y ∷ z ∷ b) =
    ap (λ r. cost (x ∷ a) (y ∷ seen) ∷ r) (row_rest-costs x a (y ∷ seen) (z ∷ b))

first_row-costs : (seen b : Text) → first_row (cost [] seen) b ≡ costs [] seen b
unfolding first_row cost
first_row-costs seen [] = refl
first_row-costs seen (y ∷ b) = ap (λ r. cost [] seen ∷ r) (first_row-costs (y ∷ seen) b)

-- `rev` in front of what was read
abbrev rev_onto : Text → Text → Text
rev_onto [] seen = seen
rev_onto (x ∷ a) seen = rev_onto a (x ∷ seen)

cost-nil : (a : Text) → cost a [] ≡ length a * edit
unfolding cost
cost-nil [] = refl
cost-nil (x ∷ a) = omega (arith, cost-nil a)

costs-head : (a seen b : Text) → costs a seen b ≡ cost a seen ∷ later_costs a seen b
costs-head a seen [] = refl
costs-head a seen (y ∷ b) = refl

rows-costs :
    (a read b : Text) (i : ℕ)
    → i ≡ length read + 1
    → rows i a b (costs read [] b) ≡ costs (rev_onto a read) [] b
unfolding rows
rows-costs [] read b i h = refl
rows-costs (x ∷ a) read b i h =
    let start : cost (x ∷ read) [] ≡ i * edit = cost-nil (x ∷ read) ∙ omega (arith, h) in
    let row : i * edit ∷ row_rest x (i * edit) (costs read [] b) b ≡ costs (x ∷ read) [] b =
      rw (sym start) (
        ap (λ r. cost (x ∷ read) [] ∷ r) (row_rest-costs x read [] b)
        ∙ sym (costs-head (x ∷ read) [] b)) in
    ap (rows (i + 1) a b) row ∙ rows-costs a (x ∷ read) b (i + 1) (omega (arith, h))

last_entry-costs : (a seen b : Text) → last_entry (costs a seen b) ≡ cost a (rev_onto b seen)
last_entry-costs a seen [] = refl
last_entry-costs a seen (y ∷ []) = refl
last_entry-costs a seen (y ∷ z ∷ b) = last_entry-costs a (y ∷ seen) (z ∷ b)

abbrev pub reversed : Text → Text
reversed a = rev_onto a []

-- The table's last_entry entry is the least cost of the edits that make one text the other.
pub edit_distance-cost : (a b : Text) → edit_distance a b ≡ cost (reversed a) (reversed b)
unfolding edit_distance cost
edit_distance-cost a b =
    ap (λ r. last_entry (rows 1 a b r)) (first_row-costs [] b)
    ∙ (ap last_entry (rows-costs a [] b 1 refl) ∙ last_entry-costs (reversed a) [] b)
