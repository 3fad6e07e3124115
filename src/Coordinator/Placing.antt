-- ===== src/Coordinator/Placing.antt =====
-- Where `input_filter` of SandboxConversation puts the thread's messages.
use discord_chat_bot.Prelude.{
  ℕ, ◌+◌, ◌≤◌, ◌≡◌, refl, ap, ◌∙◌, Bool, true, false, not, ◌&&◌, ◌||◌, Option, none, some, List, [],
  ◌∷◌, ◌++◌, leb, ◌==◌, min, if◌then◌else◌, filter, map, length, length-append, filter-append,
  arith,
}
use discord_chat_bot.Ledger.{ThreadEvent, RunLedger, is_received, unpresented}
use discord_chat_bot.Coordinator.{
  Coordinator, Input, item, said, insert_event, sort_events, is_placed_at, placed_at, place,
  input_filter,
}

module _ {ℓ} {A : Type ℓ} where
  -- what is left of an input without the thread's messages, and without the items
  abbrev pub items : List (Input A) → List A
  items [] = []
  items (item x ∷ xs) = x ∷ items xs
  items (said e ∷ xs) = items xs

  abbrev pub messages : List (Input A) → List ThreadEvent
  messages [] = []
  messages (item x ∷ xs) = messages xs
  messages (said e ∷ xs) = e ∷ messages xs

  items-said : (es : List ThreadEvent) (xs : List (Input A)) → items (map said es ++ xs) ≡ items xs
  items-said [] xs = refl
  items-said (e ∷ es) xs = items-said es xs

  items-said_all : (es : List ThreadEvent) → items (map said es) ≡ []
  items-said_all [] = refl
  items-said_all (e ∷ es) = items-said_all es

  messages-said :
      (es : List ThreadEvent) (xs : List (Input A))
      → messages (map said es ++ xs) ≡ es ++ messages xs
  messages-said [] xs = refl
  messages-said (e ∷ es) xs = ap (λ l. e ∷ l) (messages-said es xs)

  items-place : (l : RunLedger) (last i : ℕ) (xs : List A) → items (place l last i xs) ≡ xs
  unfolding place
  items-place l last i [] = items-said_all (placed_at l last i)
  items-place l last i (x ∷ xs) =
      items-said (placed_at l last i) _ ∙ ap (λ ys. x ∷ ys) (items-place l last (i + 1) xs)

messages-said_all {ℓ} : (A : Type ℓ) (es : List ThreadEvent) → messages {A = A} (map said es) ≡ es
messages-said_all A [] = refl
messages-said_all A (e ∷ es) = ap (λ l. e ∷ l) (messages-said_all A es)

-- how many events of the list a test holds of
unfoldable pub count : (ThreadEvent → Bool) → List ThreadEvent → ℕ
count p es = length (filter p es)

module _ (p : ThreadEvent → Bool) where
  count-append : (es ds : List ThreadEvent) → count p (es ++ ds) ≡ count p es + count p ds
  unfolding count
  count-append es ds = rw (filter-append p es ds) (length-append (filter p es) (filter p ds))

  count-nil : count p [] ≡ 0
  unfolding count
  count-nil = refl

  count-cons :
      (e : ThreadEvent) (es : List ThreadEvent) → count p (e ∷ es) ≡ count p (e ∷ []) + count p es
  unfolding count
  count-cons e es = ground arith

  count-insert_event :
      (e : ThreadEvent) (es : List ThreadEvent) → count p (insert_event e es) ≡ count p (e ∷ es)
  unfolding count insert_event
  count-insert_event e [] = refl
  count-insert_event e (d ∷ es) = ground (arith, count-insert_event e es)

  count-sort_events :
      (ds es : List ThreadEvent) → count p (sort_events ds es) ≡ count p ds + count p es
  unfolding sort_events
  count-sort_events ds [] = rw (count-nil) (omega arith)
  count-sort_events ds (e ∷ es) = omega (
    arith,
    count-sort_events (insert_event e ds) es,
    count-insert_event e ds,
    count-cons e ds,
    count-cons e es,
  )

abbrev pub is_none : Option ℕ → Bool
is_none none = true
is_none (some n) = false

-- an event that was shown, and stands at the place i or after it
unfoldable is_from : ℕ → ℕ → ThreadEvent → Bool
is_from last i e = elim e.anchor [
  | none ↦ false
  | some anchor ↦ not (is_received e.stage) && leb i (min anchor last)
]

abbrev pub has_place : ThreadEvent → Bool
has_place e = not (is_received e.stage) && not (is_none e.anchor)

is_from-last : (last : ℕ) (e : ThreadEvent) → is_from last last e ≡ is_placed_at last last e
unfolding is_from
is_from-last last e = ground arith

module _ (p : ThreadEvent → Bool) (last i : ℕ) where
  from_last :
      (es : List ThreadEvent) → filter (is_from last last) es ≡ filter (is_placed_at last last) es
  from_last [] = refl
  from_last (e ∷ es) = rw (is_from-last last e, from_last es) refl

  is_from-step :
      (e : ThreadEvent) → is_from last i e ≡ (is_placed_at last i e || is_from last (i + 1) e)
  unfolding is_from
  is_from-step e = ground arith

  is_from-once : (e : ThreadEvent) → (is_placed_at last i e && is_from last (i + 1) e) ≡ false
  unfolding is_from
  is_from-once e = ground arith

  from_step :
      (es : List ThreadEvent)
      → count p (filter (is_from last i) es)
        ≡ count p (filter (is_placed_at last i) es) + count p (filter (is_from last (i + 1)) es)
  from_step [] = rw (count-nil p) refl
  from_step (e ∷ es) = ground (
    arith,
    is_from-step e,
    is_from-once e,
    from_step es,
    count-cons p e (filter (is_from last i) es),
    count-cons p e (filter (is_placed_at last i) es),
    count-cons p e (filter (is_from last (i + 1)) es),
  )

-- each event that was shown and has a place, from the first place on
is_from-zero : (last : ℕ) (e : ThreadEvent) → is_from last 0 e ≡ has_place e
unfolding is_from
is_from-zero last e = ground arith

from_zero : (last : ℕ) (es : List ThreadEvent) → filter (is_from last 0) es ≡ filter has_place es
from_zero last [] = refl
from_zero last (e ∷ es) = rw (is_from-zero last e, from_zero last es) refl

module _ (p : ThreadEvent → Bool) (l : RunLedger) (last : ℕ) where
  staged_at : ℕ → List ThreadEvent
  staged_at i = if i == last then unpresented l else []

  count-placed_at :
      (i : ℕ)
      → count p (placed_at l last i)
        ≡ count p (filter (is_placed_at last i) l.events) + count p (staged_at i)
  unfolding placed_at staged_at
  count-placed_at i = omega (
    arith,
    count-sort_events p [] (filter (is_placed_at last i) l.events ++ staged_at i),
    count-append p (filter (is_placed_at last i) l.events) (staged_at i),
    count-nil p,
  )

  staged_last : staged_at last ≡ unpresented l
  unfolding staged_at
  staged_last = ground arith

  staged_before : (i : ℕ) → i + 1 ≤ last → staged_at i ≡ []
  unfolding staged_at
  staged_before i h = ground arith

  count-place {ℓ} :
      (A : Type ℓ) (i : ℕ) (xs : List A)
      → i + length xs ≡ last
      → count p (messages (place l last i xs))
        ≡ count p (filter (is_from last i) l.events) + count p (unpresented l)
  unfolding place
  count-place A i [] h =
      let i≡last : i ≡ last = omega (arith, h) in
      rw
        (
          i≡last,
          messages-said_all A (placed_at l last last),
          count-placed_at last,
          staged_last,
          from_last p last i l.events,
        )
        refl
  count-place A i (x ∷ xs) h =
      let before : i + 1 ≤ last = omega (arith, h) in
      let rest : (i + 1) + length xs ≡ last = omega (arith, h) in
      rw
        (
          messages-said (placed_at l last i) (item x ∷ place l last (i + 1) xs),
          count-append p (placed_at l last i) (messages (place l last (i + 1) xs)),
          count-placed_at i,
          staged_before i before,
          count-nil p,
          count-place A (i + 1) xs rest,
          from_step p last i l.events,
        )
        (omega arith)

-- The model's input is the given items, in order, with thread messages between them: as a bag,
-- the messages that were shown and have a place, and those that are shown now.
pub input_filter-places {ℓ} :
    {A : Type ℓ} (p : ThreadEvent → Bool) (c : Coordinator) (xs : List A)
    → (items (input_filter c xs).0 ≡ xs)
      × (count p (messages (input_filter c xs).0)
          ≡ count p (filter has_place c.ledger.events) + count p (unpresented c.ledger))
unfolding input_filter
input_filter-places {A = A} p c xs = (
  items-place c.ledger (length xs) 0 xs,
  rw
      (
        count-place p c.ledger (length xs) A 0 xs (omega arith),
        from_zero (length xs) c.ledger.events,
      )
      refl,
)
