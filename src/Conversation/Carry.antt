-- ===== src/Conversation/Carry.antt =====
-- From the ledger's report to the next run's preamble, in core/classes/sandbox_conversation_store.py.
use discord_chat_bot.Prelude.{
  ℕ, zero, suc, ◌-◌, ◌≡◌, refl, ap, ap₂, sym, subst, ◌<◌, ltb, take, ℕ_discrete, Bool-cases, ◌∙◌,
  ◌⊎◌, Bool, true, Option, List, [], ◌∷◌, ◌++◌, length, drop, filter, filter-append, map, All,
  length-drop, inl, inr, arith,
}
use discord_chat_bot.Text.{Text}
use discord_chat_bot.Ledger.{ThreadEvent, RunLedger, is_unresolved, unresolved}
use discord_chat_bot.Ledger.Stages.{Row, status, row, late_row, outcomes}
use discord_chat_bot.Ledger.Stages.Report.{Fits, IsHonest, status_unresolved}
use discord_chat_bot.Conversation.{
  carries, Item, item, last, Record, build_record, max_record_bytes, cut_to_size, saved,
  max_record_items,
}

carries-status :
    (e : ThreadEvent) → Fits e.stage e.outcome → is_unresolved e ≡ true → carries (status e) ≡ true
unfolding carries
carries-status e f h = ground (arith, status_unresolved e f h)

abbrev pub carried : List Row → List Row
carried = filter (λ r. carries r.status)

abbrev pub carried_event : ThreadEvent → Bool
carried_event e = carries (status e)

carried-events : (es : List ThreadEvent) → carried (map row es) ≡ map row (filter carried_event es)
unfolding row
carried-events [] = refl
carried-events (e ∷ es) = ground (arith, carried-events es)

carried-late : (es : List ThreadEvent) → carried (map late_row es) ≡ map late_row es
unfolding late_row carries
carried-late [] = refl
carried-late (e ∷ es) = ap (◌∷◌ (late_row e)) (carried-late es)

unresolved-carried :
    (es : List ThreadEvent)
    → All (λ e. Fits e.stage e.outcome) es
    → filter is_unresolved (filter carried_event es) ≡ filter is_unresolved es
unresolved-carried [] h = refl
unresolved-carried (e ∷ es) h = ground (arith, unresolved-carried es h.1, carries-status e h.0)

-- the rows that are carried, of which the unresolved events' are all
pub carried-outcomes :
    (l : RunLedger)
    → IsHonest l
    → (carried (outcomes l) ≡ map row (filter carried_event l.events) ++ map late_row l.follow_ups)
      × (filter is_unresolved (filter carried_event l.events) ≡ unresolved l)
unfolding outcomes unresolved
carried-outcomes l h = (
  filter-append (λ r. carries r.status) (map row l.events) (map late_row l.follow_ups)
      ∙ ap₂ (λ a b. a ++ b) (carried-events l.events) (carried-late l.follow_ups),
  unresolved-carried l.events h,
)

take_append_drop {ℓ} : {A : Type ℓ} (n : ℕ) (xs : List A) → take n xs ++ drop n xs ≡ xs
take_append_drop zero xs = refl
take_append_drop (suc n) [] = refl
take_append_drop (suc n) (x ∷ xs) = ap (◌∷◌ x) (take_append_drop n xs)

abbrev pub with_carry : Record → List Item → Record
with_carry r items = record r { carry = items }

-- the last item that was dropped would have made the record too large
abbrev pub HasNoRoom : (Record → ℕ) → Record → List Item → List Item → Type 0
HasNoRoom bytes r dropped items =
    (dropped ≡ [])
    ⊎ ((others : List Item) × (i : Item) × (dropped ≡ others ++ i ∷ [])
        × (max_record_bytes < bytes (with_carry r (i ∷ items))))

HasNoRoom-cons :
    (bytes : Record → ℕ) (r : Record) (i : Item) (dropped items all_items : List Item)
    → dropped ++ items ≡ all_items
    → max_record_bytes < bytes (with_carry r (i ∷ all_items))
    → HasNoRoom bytes r dropped items
    → HasNoRoom bytes r (i ∷ dropped) items
HasNoRoom-cons bytes r i dropped items all_items e l (inl none_dropped) =
    let same : all_items ≡ items = sym e ∙ ap (λ d. d ++ items) none_dropped in
    inr (
      [],
      i,
      ap (◌∷◌ i) none_dropped,
      subst (λ xs. max_record_bytes < bytes (with_carry r (i ∷ xs))) same l,
    )
HasNoRoom-cons bytes r i dropped items all_items e l (inr (others, j, p, m)) =
    inr (i ∷ others, j, ap (◌∷◌ i) p, m)

cut_to_size_lem :
    (bytes : Record → ℕ) (r : Record) (items : List Item)
    → (dropped : List Item) × (dropped ++ (cut_to_size bytes r items).carry ≡ items)
      × HasNoRoom bytes r dropped (cut_to_size bytes r items).carry
unfolding cut_to_size
cut_to_size_lem bytes r [] = ([], refl, inl refl)
cut_to_size_lem bytes r (i ∷ items) =
    elim (Bool-cases (ltb max_record_bytes (bytes (with_carry r (i ∷ items))))) [
      | inr e ↦ rw e ([], refl, inl refl)
      | inl e ↦
          let (dropped, p, room) = cut_to_size_lem bytes r items in
          rw e (
            i ∷ dropped,
            ap (◌∷◌ i) p,
            HasNoRoom-cons bytes r i dropped (cut_to_size bytes r items).carry items p
                (ground arith) room,
          )
    ]

last_full {ℓ} :
    {A : Type ℓ} (n : ℕ) (xs : List A) → (take (length xs - n) xs ≡ []) ⊎ (length (last n xs) ≡ n)
last_full n xs = elim (ℕ_discrete (length xs - n) 0) [
  | yes p ↦ inl (rw p refl)
  | no p ↦ inr (omega (arith, length-drop (length xs - n) xs))
]

-- From an honest ledger to what `save` writes for the next run. To carry are the rows of some
-- events, every unresolved one among them, and of every message that came after the finalization
-- boundary. The saved record has the newest of them: older ones are left out only when ten newer
-- ones are kept, and more only for as long as the next one would make the record too large.
pub saved-outcomes :
    (bytes : Record → ℕ) (l : RunLedger) (outcome : Text) (question : Option Text)
    → IsHonest l
    → (older : List Item) × (dropped : List Item) × (older
          ++ (dropped ++ (saved bytes (build_record (outcomes l) outcome question)).carry)
        ≡ map item (map row (filter carried_event l.events) ++ map late_row l.follow_ups))
      × ((older ≡ [])
          ⊎ (length (dropped ++ (saved bytes (build_record (outcomes l) outcome question)).carry)
              ≡ max_record_items))
      × HasNoRoom bytes
          (build_record (outcomes l) outcome question)
          dropped
          (saved bytes (build_record (outcomes l) outcome question)).carry
      × (filter is_unresolved (filter carried_event l.events) ≡ unresolved l)
unfolding saved build_record
saved-outcomes bytes l outcome question h =
    let (rows, kept) = carried-outcomes l h in
    let items = map item (carried (outcomes l)) in
    let r = build_record (outcomes l) outcome question in
    let (dropped, p, room) = cut_to_size_lem bytes r (last max_record_items items) in
    (
      take (length items - max_record_items) items,
      dropped,
      ap (λ xs. take (length items - max_record_items) items ++ xs) p
          ∙ (take_append_drop (length items - max_record_items) items ∙ ap (map item) rows),
      rw p (last_full max_record_items items),
      room,
      kept,
    )
