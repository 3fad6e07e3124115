-- ===== src/Conversation/Preamble.antt =====
-- What the next run's preamble says of a record, in core/classes/sandbox_conversation_store.py.
use discord_chat_bot.Prelude.{
  ℕ, zero, suc, ◌-◌, ◌≤◌, ◌≡◌, ◌↔◌, refl, ap, ◌⊎◌, Option, none, some, List, [], ◌∷◌, ◌++◌, length,
  drop, map, All, length-take, length-drop, inl, inr, arith,
}
use discord_chat_bot.Text.{Text}
use discord_chat_bot.Ledger.Stages.{Row}
use discord_chat_bot.Conversation.{
  Item, item, clip_question, last, build_record, item_line, question_lines, preamble_of,
  resume_preamble, max_record_items, max_item_chars,
}
use discord_chat_bot.Conversation.Carry.{carried}

length-last-le {ℓ} : {A : Type ℓ} (n : ℕ) (xs : List A) → length (last n xs) ≤ n
length-last-le n xs = omega (arith, length-drop (length xs - n) xs)

abbrev pub IsShort : Item → Type 0
IsShort i = (length i.author ≤ 40) × (length i.text ≤ max_item_chars)

All-drop {ℓ κ} : {A : Type ℓ} (P : A → Type κ) (n : ℕ) (xs : List A) → All P xs → All P (drop n xs)
All-drop P zero xs h = h
All-drop P (suc n) [] h = h
All-drop P (suc n) (x ∷ xs) h = All-drop P n xs h.1

items-IsShort : (rs : List Row) → All IsShort (map item rs)
unfolding item
items-IsShort [] = tt
items-IsShort (r ∷ rs) = (
  (omega (arith, length-take 40 r.author), omega (arith, length-take max_item_chars r.text)),
  items-IsShort rs,
)

-- A record is bounded, whatever the report: ten items at most, each with a short author and text.
pub build_record-bounded :
    (rows : List Row) (outcome : Text) (question : Option Text)
    → (length (build_record rows outcome question).carry ≤ max_record_items)
      × All IsShort (build_record rows outcome question).carry
unfolding build_record
build_record-bounded rows outcome question =
    let items = map item (carried rows) in
    (
      length-last-le max_record_items items,
      All-drop IsShort (length items - max_record_items) items (items-IsShort (carried rows)),
    )

preamble_of-nil : (ls : List Text) → (preamble_of ls ≡ []) ↔ (ls ≡ [])
unfolding preamble_of
preamble_of-nil [] = (λ h. refl, λ h. refl)
preamble_of-nil (l ∷ ls) = (λ h. cc, λ h. cc)

lines-nil :
    (is : List Item) (q : Option Text)
    → (map item_line is ++ question_lines (clip_question q) ≡ [])
      ↔ ((is ≡ []) × (clip_question q ≡ none))
unfolding question_lines clip_question
lines-nil [] none = (λ h. (refl, refl), λ h. refl)
lines-nil [] (some []) = (λ h. (refl, refl), λ h. refl)
lines-nil [] (some (c ∷ q)) = (λ h. cc, λ h. cc)
lines-nil (i ∷ is) q = (λ h. cc, λ h. cc)

drop-nil {ℓ} : {A : Type ℓ} (n : ℕ) → drop {A = A} n [] ≡ []
drop-nil zero = refl
drop-nil (suc n) = refl

last-nil {ℓ} : {A : Type ℓ} (n : ℕ) (xs : List A) → (last (suc n) xs ≡ []) ↔ (xs ≡ [])
last-nil n [] = (λ h. refl, λ h. drop-nil (0 - suc n))
last-nil n (x ∷ xs) = (
  λ h. absurd (omega (arith, ap length h, length-drop (length (x ∷ xs) - suc n) (x ∷ xs))),
  λ h. cc,
)

map-nil {ℓ κ} : {A : Type ℓ} {B : Type κ} (f : A → B) (xs : List A) → (map f xs ≡ []) ↔ (xs ≡ [])
map-nil f [] = (λ h. refl, λ h. refl)
map-nil f (x ∷ xs) = (λ h. cc, λ h. cc)

clip_question-none : (q : Option Text) → (clip_question q ≡ none) ↔ ((q ≡ none) ⊎ (q ≡ some []))
unfolding clip_question
clip_question-none none = (λ h. inl refl, λ h. refl)
clip_question-none (some []) = (λ h. inr refl, λ h. refl)
clip_question-none (some (c ∷ q)) = (λ h. cc, λ h. ground arith)

-- The next run is told of loose ends exactly when there are any: a carried row, or a question
-- that was left open.
pub resume_preamble-nil :
    (rows : List Row) (outcome : Text) (question : Option Text)
    → (resume_preamble (some (build_record rows outcome question)) ≡ [])
      ↔ ((carried rows ≡ []) × ((question ≡ none) ⊎ (question ≡ some [])))
unfolding resume_preamble build_record
resume_preamble-nil rows outcome question =
    let items = last max_record_items (map item (carried rows)) in
    let told = preamble_of-nil (map item_line items ++ question_lines (clip_question question)) in
    let kept = last-nil 9 (map item (carried rows)) in
    (
      λ h.
          let (a, b) = (lines-nil items question).0 (told.0 h) in
          ((map-nil item (carried rows)).0 (kept.0 a), (clip_question-none question).0 b),
      λ h. told.1 (
          (lines-nil items question).1
            (kept.1 ((map-nil item (carried rows)).1 h.0), (clip_question-none question).1 h.1)),
    )
