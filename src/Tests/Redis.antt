-- ===== src/Tests/Redis.antt =====
-- The store's Redis as functions and lists, which meets the laws that the store relies on.
use discord_chat_bot.Prelude.{
  ℕ, ◌≡◌, ◌≢◌, refl, true, false, Option, none, some, List, [], ◌∷◌, ite, ◌++◌, any, filter, All,
  if◌then◌else◌, not, ◌||◌,
}
use discord_chat_bot.Text.{Text, Text-discrete}
use discord_chat_bot.Entries.{
  schedule, Entry, Command, set_record, set_due, drop_due, set_terminal, leave_index, enter_index,
  drop_terminal, is_of_index, is_text, Kind, rule, set_last_followup, is_record, is_of_due,
  Database,
}

-- the records, the runs that are due, and the two indexes
abbrev pub Keys : Type 0
Keys = (Text → Option Entry) × (Text → Option ℕ) × List Text × List Text

abbrev pub names : Kind → Keys → List Text
names schedule s = s.2
names rule s = s.3

abbrev entered : Text → List Text → List Text
entered i xs = if any (λ j. is_text j i) xs then xs else i ∷ xs

abbrev left : Text → List Text → List Text
left i xs = filter (λ j. not (is_text j i)) xs

abbrev pub put {ℓ} : {A : Type ℓ} → Text → A → (Text → A) → Text → A
put k a f j = ite (Text-discrete j k) a (f j)

pub put-same {ℓ} : {A : Type ℓ} (k : Text) (a : A) (f : Text → A) → put k a f k ≡ a
put-same k a f = elim (Text-discrete k k) as (λ d. ite d a (f k) ≡ a) [
  | yes p ↦ refl
  | no n ↦ absurd (n refl)
]

pub put-other {ℓ} :
    {A : Type ℓ} (k : Text) (a : A) (f : Text → A) (j : Text) → j ≢ k → put k a f j ≡ f j
put-other k a f j m = elim (Text-discrete j k) as (λ d. ite d a (f j) ≡ f j) [
  | yes p ↦ absurd (m p)
  | no n ↦ refl
]

abbrev apply : Command → Keys → Keys
apply (set_record e kept) s = (put e.ident (some e) s.0, s.1, s.2, s.3)
apply (set_due i at) s = (s.0, put i (some at) s.1, s.2, s.3)
apply (drop_due i) s = (s.0, put i none s.1, s.2, s.3)
apply (enter_index schedule i at) s = (s.0, s.1, entered i s.2, s.3)
apply (enter_index rule i at) s = (s.0, s.1, s.2, entered i s.3)
apply (leave_index schedule i) s = (s.0, s.1, left i s.2, s.3)
apply (leave_index rule i) s = (s.0, s.1, s.2, left i s.3)
apply _ s = s

is_text-ne : (a b : Text) → a ≢ b → is_text a b ≡ false
is_text-ne a b m = elim (Text-discrete a b) as (λ d. ite d true false ≡ false) [
  | yes p ↦ absurd (m p)
  | no n ↦ refl
]

pub other_entry :
    (s : Keys) (c : Command) (j : Text) → is_record c ≡ false → (apply c s).0 j ≡ s.0 j
other_entry s (set_record e kept) j h = cc h
other_entry s (enter_index schedule i at) j h = refl
other_entry s (enter_index rule i at) j h = refl
other_entry s (leave_index schedule i) j h = refl
other_entry s (leave_index rule i) j h = refl
other_entry s (drop_terminal i) j h = refl
other_entry s (set_due i at) j h = refl
other_entry s (drop_due i) j h = refl
other_entry s (set_terminal i at) j h = refl
other_entry s (set_last_followup p at) j h = refl

pub other_due : (s : Keys) (c : Command) (j : Text) → is_of_due c ≡ false → (apply c s).1 j ≡ s.1 j
other_due s (set_record e kept) j h = refl
other_due s (enter_index schedule i at) j h = refl
other_due s (enter_index rule i at) j h = refl
other_due s (leave_index schedule i) j h = refl
other_due s (leave_index rule i) j h = refl
other_due s (drop_terminal i) j h = refl
other_due s (set_due i at) j h = cc h
other_due s (drop_due i) j h = cc h
other_due s (set_terminal i at) j h = refl
other_due s (set_last_followup p at) j h = refl

pub other_index :
    (s : Keys) (c : Command) (k : Kind) → is_of_index c ≡ false → names k (apply c s) ≡ names k s
other_index s (set_record e kept) schedule h = refl
other_index s (set_record e kept) rule h = refl
other_index s (enter_index k i at) l h = cc h
other_index s (leave_index k i) l h = cc h
other_index s (set_due i at) schedule h = refl
other_index s (set_due i at) rule h = refl
other_index s (drop_due i) schedule h = refl
other_index s (drop_due i) rule h = refl
other_index s (set_terminal i at) k h = refl
other_index s (drop_terminal i) k h = refl
other_index s (set_last_followup p at) k h = refl

entered_new : (i : Text) (xs : List Text) → All (λ j. j ≢ i) xs → entered i xs ≡ i ∷ xs
entered_new i xs h = rw (is_new i xs h) refl
  where
    is_new : (i : Text) (xs : List Text) → All (λ j. j ≢ i) xs → any (λ j. is_text j i) xs ≡ false
    is_new i [] h = refl
    is_new i (x ∷ xs) h =
        elim (Text-discrete x i)
            as (λ d.
              ite d true false ≡ false → (ite d true false || any (λ j. is_text j i) xs) ≡ false) [
                | yes p ↦ λ e. cc e
                | no n ↦ λ e. is_new i xs h.1
              ]
          (is_text-ne x i h.0)

pub enter_at :
    (s : Keys) (k : Kind) (i : Text) (at : ℕ)
    → All (λ j. j ≢ i) (names k s)
    → (xs : List Text) × (ys : List Text) × (names k s ≡ xs ++ ys)
      × (names k (apply (enter_index k i at) s) ≡ xs ++ i ∷ ys)
enter_at s schedule i at h = ([], s.2, refl, entered_new i s.2 h)
enter_at s rule i at h = ([], s.3, refl, entered_new i s.3 h)

pub enter_other :
    (s : Keys) (k : Kind) (i : Text) (at : ℕ) (l : Kind)
    → l ≢ k
    → names l (apply (enter_index k i at) s) ≡ names l s
enter_other s schedule i at schedule n = absurd (n refl)
enter_other s schedule i at rule n = refl
enter_other s rule i at schedule n = refl
enter_other s rule i at rule n = absurd (n refl)

pub leave_at :
    (s : Keys) (k : Kind) (i : Text) → names k (apply (leave_index k i) s) ≡ left i (names k s)
leave_at s schedule i = refl
leave_at s rule i = refl

pub leave_other :
    (s : Keys) (k : Kind) (i : Text) (l : Kind)
    → l ≢ k
    → names l (apply (leave_index k i) s) ≡ names l s
leave_other s schedule i schedule n = absurd (n refl)
leave_other s schedule i rule n = refl
leave_other s rule i schedule n = refl
leave_other s rule i rule n = absurd (n refl)

abbrev pub database : Database Keys
database = record {
  entry = λ s. s.0;
  due = λ s. s.1;
  index = λ s k. names k s;
  run = apply;
  entry-set_record = λ s e kept. put-same e.ident (some e) s.0;
  entry-set_other = λ s e kept j n. put-other e.ident (some e) s.0 j n;
  entry-other = other_entry;
  due-set_due = λ s i at. put-same i (some at) s.1;
  due-set_other = λ s i at j n. put-other i (some at) s.1 j n;
  due-drop_due = λ s i. put-same i none s.1;
  due-drop_other = λ s i j n. put-other i none s.1 j n;
  due-other = other_due;
  index-enter = enter_at;
  index-enter_other = enter_other;
  index-leave = leave_at;
  index-leave_other = leave_other;
  index-other = other_index;
}
