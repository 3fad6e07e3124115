-- ===== src/Attachments/Stale.antt =====
-- Loads and invalidations of core/classes/attachment_cache.py in any order.
use discord_chat_bot.Prelude.{
  ℕ, ◌+◌, ◌≤◌, ◌<◌, ◌≡◌, inl, inr, refl, sym, subst, Bool, true, none, some, List, [], ◌∷◌, ltb,
  leb, length, filter, map, lookup, Option-cases, Bool-cases, All, arith,
}
use discord_chat_bot.Dict.{Dict}
use discord_chat_bot.Dict.Laws.{lookup-set}
use discord_chat_bot.Text.{Text}
use discord_chat_bot.Attachments.{
  Key, Key-discrete, MessageKey, MessageKey-discrete, Invalidation, AttachmentCache, remove_key,
  remove_keys, expire, get, put, store, land, is_stale, LoadOutcome, failed, returned, finish,
  get_or_load, invalidate_message, record_invalidation, prune_invalidated, new_invalidation, first,
  is_expired, is_of, Step, load, end, invalidate, step, steps,
}

-- What neither loads nor evictions change.
abbrev frame : AttachmentCache → Dict MessageKey Invalidation × ℕ × ℕ
frame c = (c.invalidated, c.generation, c.ttl)

frame-remove_key : (c : AttachmentCache) (k : Key) → frame (remove_key c k) ≡ frame c
unfolding remove_key
frame-remove_key c k = elim (Option-cases (lookup Key-discrete k c.entries)) [
  | inl e ↦ rw (e, remove_key) refl
  | inr (item, e) ↦ rw (e, remove_key) refl
]

frame-remove_keys : (c : AttachmentCache) (ks : List Key) → frame (remove_keys c ks) ≡ frame c
unfolding remove_keys
frame-remove_keys c [] = refl
frame-remove_keys c (k ∷ ks) = rw (frame-remove_keys (remove_key c k) ks) (frame-remove_key c k)

frame-get : (c : AttachmentCache) (k : Key) (now : ℕ) → frame (get c k now).1 ≡ frame c
unfolding get
frame-get c k now = elim (Option-cases (lookup Key-discrete k c.entries)) [
  | inl e ↦ rw (e, get) refl
  | inr (item, e) ↦ elim (Bool-cases (leb item.expires_at now)) [
    | inl q ↦ rw (e, get, q) (frame-remove_key c k)
    | inr q ↦ rw (e, get, q) refl
  ]
]

frame-get_or_load :
    (c : AttachmentCache) (k : Key) (task now : ℕ) → frame (get_or_load c k task now).1 ≡ frame c
unfolding get_or_load
frame-get_or_load c k task now =
    let c' = (get c k now).1 in
    elim (Option-cases (get c k now).0) [
      | inl e ↦ elim (Option-cases (lookup Key-discrete k c'.inflight)) [
        | inl q ↦ rw (e, get_or_load, q) (frame-get c k now)
        | inr (t, q) ↦ rw (e, get_or_load, q) (frame-get c k now)
      ]
      | inr (value, e) ↦ rw (e, get_or_load) (frame-get c k now)
    ]

frame-store :
    (c : AttachmentCache) (k : Key) (value : Text) (expiring now : ℕ)
    → frame (store c k value expiring now) ≡ frame c
unfolding store put expire
frame-store c k value expiring now = elim (Bool-cases (ltb c.max_bytes (length value))) [
  | inl e ↦ rw (e, store) refl
  | inr e ↦
      let gone = map first (filter (is_expired expiring) c.entries) in
      rw (e, store) (rw (frame-remove_key (remove_keys c gone) k) (frame-remove_keys c gone))
]

frame-finish :
    (c : AttachmentCache) (k : Key) (task : ℕ) (outcome : LoadOutcome) (started expiring now : ℕ)
    → frame (finish c k task outcome started expiring now) ≡ frame c
unfolding finish land
frame-finish c k task failed started expiring now = refl
frame-finish c k task (returned none) started expiring now = refl
frame-finish c k task (returned (some value)) started expiring now =
    elim (Bool-cases (is_stale (land c k task) k started)) [
      | inl e ↦ rw (e, finish) refl
      | inr e ↦ rw (e, finish) (frame-store (land c k task) k value expiring now)
    ]

-- The record of an invalidation at `time`, after a load that began in the generation `started`.
abbrev Marked : Dict MessageKey Invalidation × ℕ × ℕ → MessageKey → ℕ → ℕ → ℕ → Type 0
Marked (records, generation, ttl) message started time lifetime =
    ((r : Invalidation) × (lookup MessageKey-discrete message records ≡ some r)
      × (started < r.number)
      × (time ≤ r.recorded_at))
    × (started ≤ generation)
    × (ttl ≡ lifetime)

lookup-prune :
    (ttl now : ℕ) (message : MessageKey) (d : Dict MessageKey Invalidation) (r : Invalidation)
    → lookup MessageKey-discrete message d ≡ some r
    → now ≤ r.recorded_at + ttl
    → lookup MessageKey-discrete message (prune_invalidated ttl now d) ≡ some r
unfolding lookup prune_invalidated
lookup-prune ttl now message [] r h k = h
lookup-prune ttl now message ((j, q) ∷ d) r h k = ground (arith, lookup-prune ttl now message d r)

-- Invalidations in the lifetime that starts at `time`.
abbrev pub IsWithin : ℕ → ℕ → Step → Type 0
IsWithin time ttl (load key task now) = Unit
IsWithin time ttl (end key task outcome started expiring now) = Unit
IsWithin time ttl (invalidate message deleted now) = (time ≤ now) × (now ≤ time + ttl)

module _ (message : MessageKey) (started time ttl : ℕ) where
  Marked-record :
      (c : AttachmentCache) (other : MessageKey) (deleted : Bool) (now : ℕ)
      → (time ≤ now) × (now ≤ time + ttl)
      → Marked (frame c) message started time ttl
      → Marked (frame (record_invalidation c other deleted now)) message started time ttl
  unfolding record_invalidation
  Marked-record c other deleted now w ((r, e, a, b), g, t) =
      let d = prune_invalidated c.ttl now c.invalidated in
      let q = new_invalidation c.generation deleted (lookup MessageKey-discrete other d) now in
      let kept = lookup-prune c.ttl now message c.invalidated r e (omega (arith, w.1, b, t)) in
      let found = lookup-set MessageKey-discrete other message q d in
      elim (MessageKey-discrete message other) [
        | yes p ↦ ((q, ground (arith, found), omega (arith, g), w.0), omega (arith, g), t)
        | no n ↦ ((r, ground (arith, found, kept), a, b), omega (arith, g), t)
      ]

  Marked-step :
      (c : AttachmentCache) (x : Step)
      → IsWithin time ttl x
      → Marked (frame c) message started time ttl
      → Marked (frame (step c x)) message started time ttl
  unfolding step invalidate_message
  Marked-step c (load key task now) w h =
      subst (λ f. Marked f message started time ttl) (sym (frame-get_or_load c key task now)) h
  Marked-step c (end key task outcome s expiring now) w h =
      subst (λ f. Marked f message started time ttl)
        (sym (frame-finish c key task outcome s expiring now)) h
  Marked-step c (invalidate other deleted now) w h =
      subst (λ f. Marked f message started time ttl)
        (sym (
          frame-remove_keys (record_invalidation c other deleted now)
            (map first (filter (is_of other) c.entries))))
        (Marked-record c other deleted now w h)

  Marked-steps :
      (c : AttachmentCache) (xs : List Step)
      → All (IsWithin time ttl) xs
      → Marked (frame c) message started time ttl
      → Marked (frame (steps c xs)) message started time ttl
  unfolding steps
  Marked-steps c [] w h = h
  Marked-steps c (x ∷ xs) w h = Marked-steps (step c x) xs w.1 (Marked-step c x w.0 h)

finish_stale :
    (c : AttachmentCache) (key : Key) (task started expiring now : ℕ) (outcome : LoadOutcome)
    → is_stale c key started ≡ true
    → (finish c key task outcome started expiring now).entries ≡ c.entries
unfolding finish land is_stale
finish_stale c key task started expiring now failed h = refl
finish_stale c key task started expiring now (returned none) h = refl
finish_stale c key task started expiring now (returned (some value)) h = rw (h, finish) refl

is_stale-found :
    (c : AttachmentCache) (key : Key) (started : ℕ) (r : Invalidation)
    → lookup MessageKey-discrete key.0 c.invalidated ≡ some r
    → started < r.number
    → is_stale c key started ≡ true
unfolding is_stale
is_stale-found c key started r e a = rw (e, is_stale) (ground (arith, a))

-- A load that began before its message was invalidated stores nothing when it ends, if all that
-- happens between them is within a lifetime of the invalidation.
pub finish_late :
    (c : AttachmentCache) (key : Key) (started time : ℕ) (deleted : Bool) (xs : List Step)
    → started ≤ c.generation
    → All (IsWithin time c.ttl) xs
    → (task expiring now : ℕ) (outcome : LoadOutcome)
    → (finish
        (steps (invalidate_message c key.0 deleted time) xs)
        key
        task
        outcome
        started
        expiring
        now).entries
      ≡ (steps (invalidate_message c key.0 deleted time) xs).entries
unfolding invalidate_message record_invalidation
finish_late c key started time deleted xs before within task expiring now outcome =
    let message = key.0 in
    let c' = invalidate_message c message deleted time in
    let marked : Marked (frame c') message started time c.ttl =
      let q =
        new_invalidation c.generation deleted
          (lookup MessageKey-discrete message (prune_invalidated c.ttl time c.invalidated)) time in
      subst (λ f. Marked f message started time c.ttl)
        (sym (
          frame-remove_keys (record_invalidation c message deleted time)
            (map first (filter (is_of message) c.entries))))
        (
          (
            q,
            ground (
              arith,
              lookup-set MessageKey-discrete message message q
                  (prune_invalidated c.ttl time c.invalidated),
            ),
            omega (arith, before),
            omega arith,
          ),
          omega (arith, before),
          refl,
        ) in
    let ((r, e, a, b), g, t) = Marked-steps message started time c.ttl c' xs within marked in
    finish_stale (steps c' xs) key task started expiring now outcome
      (is_stale-found (steps c' xs) key started r e a)
