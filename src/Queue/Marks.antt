-- ===== src/Queue/Marks.antt =====
-- The enqueue marks and the locks of core/classes/message_queue.py.
use discord_chat_bot.Prelude.{
  refl, sym, [], ◌∷◌, ◌++◌, ◌↔◌, ℕ, ◌≤◌, ◌<◌, ◌≡◌, inl, inr, none, some, List, length, lookup,
  ℕ_discrete, Option-cases, arith,
}
use discord_chat_bot.Dict.{set}
use discord_chat_bot.Dict.Laws.{lookup-remove, lookup-set}
use discord_chat_bot.Dict.Evict.{length-evict, lookup-evict-push}
use discord_chat_bot.Queue.{
  max_enqueued_tracked, Enqueued, mark_enqueued, pop_enqueued, Locks, get_channel_lock,
}

set_new :
    (k v : ℕ) (d : Enqueued)
    → lookup ℕ_discrete k d ≡ none
    → set ℕ_discrete k v d ≡ d ++ (k, v) ∷ []
unfolding lookup set
set_new k v [] h = refl
set_new k v ((j, w) ∷ d) h = ground (arith, set_new k v d)

-- A mark of a message that had none is read back by the next pop, which leaves none, however many
-- marks there are.
pub pop-mark_enqueued :
    (d : Enqueued) (id now : ℕ)
    → lookup ℕ_discrete id d ≡ none
    → ((pop_enqueued (mark_enqueued d id now) id).0 ≡ some now)
      × (lookup ℕ_discrete id (pop_enqueued (mark_enqueued d id now) id).1 ≡ none)
      × (length (mark_enqueued d id now) ≤ max_enqueued_tracked)
unfolding pop_enqueued mark_enqueued
pop-mark_enqueued d id now h = (
  rw (set_new id now d h)
      (lookup-evict-push ℕ_discrete max_enqueued_tracked d id now (omega arith) h),
  ground (arith, lookup-remove ℕ_discrete id id (mark_enqueued d id now)),
  omega (arith, length-evict max_enqueued_tracked (set ℕ_discrete id now d)),
)

-- Each lock was made before, and no two channels have the same one.
pub record IsSound (s : Locks) : Type 0 where
  pub made : (c l : ℕ) → lookup ℕ_discrete c s.locks ≡ some l → l < s.fresh
  pub own :
      (c e l : ℕ)
      → lookup ℕ_discrete c s.locks ≡ some l
      → lookup ℕ_discrete e s.locks ≡ some l
      → c ≡ e

module _ (s : Locks) (channel : ℕ) where
  pub get_channel_lock-held :
      lookup ℕ_discrete channel (get_channel_lock s channel).1.locks
      ≡ some (get_channel_lock s channel).0
  unfolding get_channel_lock
  get_channel_lock-held = elim (Option-cases (lookup ℕ_discrete channel s.locks)) [
    | inl e ↦ ground (arith, lookup-set ℕ_discrete channel channel s.fresh s.locks)
    | inr (l, e) ↦ ground arith
  ]

  pub get_channel_lock-IsSound : IsSound s → IsSound (get_channel_lock s channel).1
  unfolding get_channel_lock
  get_channel_lock-IsSound h = elim (Option-cases (lookup ℕ_discrete channel s.locks)) [
    | inl e ↦
        rw (e, get_channel_lock)
          record {
            made =
                λ c l. ground (arith, lookup-set ℕ_discrete channel c s.fresh s.locks, h.made c l);
            own = λ c e l. ground (
              arith,
              lookup-set ℕ_discrete channel c s.fresh s.locks,
              lookup-set ℕ_discrete channel e s.fresh s.locks,
              h.made c l,
              h.made e l,
              h.own c e l,
            );
          }
    | inr (l, e) ↦ rw (e, get_channel_lock) h
  ]

abbrev pub ask : Locks → List ℕ → Locks
ask s [] = s
ask s (c ∷ cs) = ask (get_channel_lock s c).1 cs

ask-IsSound : (s : Locks) (cs : List ℕ) → IsSound s → IsSound (ask s cs)
ask-IsSound s [] h = h
ask-IsSound s (c ∷ cs) h = ask-IsSound (get_channel_lock s c).1 cs (get_channel_lock-IsSound s c h)

-- A lock, once made, stays the channel's.
held_on :
    (s : Locks) (c e l : ℕ)
    → lookup ℕ_discrete c s.locks ≡ some l
    → lookup ℕ_discrete c (get_channel_lock s e).1.locks ≡ some l
unfolding get_channel_lock
held_on s c e l h = elim (Option-cases (lookup ℕ_discrete e s.locks)) [
  | inl n ↦ rw (n, get_channel_lock) (ground (arith, lookup-set ℕ_discrete e c s.fresh s.locks))
  | inr (k, n) ↦ rw (n, get_channel_lock) h
]

held_after :
    (s : Locks) (cs : List ℕ) (c l : ℕ)
    → lookup ℕ_discrete c s.locks ≡ some l
    → lookup ℕ_discrete c (ask s cs).locks ≡ some l
held_after s [] c l h = h
held_after s (e ∷ cs) c l h = held_after (get_channel_lock s e).1 cs c l (held_on s c e l h)

found_lock :
    (s : Locks) (c l : ℕ) → lookup ℕ_discrete c s.locks ≡ some l → (get_channel_lock s c).0 ≡ l
unfolding get_channel_lock
found_lock s c l h = rw (h, get_channel_lock) refl

abbrev pub no_locks : Locks
no_locks = record { locks = []; fresh = 0 }

no_locks-IsSound : IsSound no_locks
unfolding lookup
no_locks-IsSound = record { made = λ c l h. ground arith; own = λ c e l h k. ground arith }

-- Two requests for a lock, with any requests before and between them, get the same lock exactly
-- when they are for the same channel.
pub get_channel_lock_same :
    (before between : List ℕ) (c e : ℕ)
    → ((get_channel_lock (ask no_locks before) c).0
        ≡ (get_channel_lock (ask (get_channel_lock (ask no_locks before) c).1 between) e).0)
      ↔ (c ≡ e)
get_channel_lock_same before between c e =
    let s = ask no_locks before in
    let t = ask (get_channel_lock s c).1 between in
    let l = (get_channel_lock s c).0 in
    let u = (get_channel_lock t e).1 in
    let sound = get_channel_lock-IsSound t e (
      ask-IsSound (get_channel_lock s c).1 between
        (get_channel_lock-IsSound s c (ask-IsSound no_locks before no_locks-IsSound))) in
    let mine = held_after (get_channel_lock s c).1 between c l (get_channel_lock-held s c) in
    let yours = get_channel_lock-held t e in
    (
      (λ same. sound.own c e l (held_on t c e l mine) (rw same yours)),
      (λ same. sym (found_lock t e l (rw (sym same) mine))),
    )
