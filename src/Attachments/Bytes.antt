-- ===== src/Attachments/Bytes.antt =====
-- The bytes that core/classes/attachment_cache.py counts, and its limit.
use discord_chat_bot.Prelude.{
  ℕ, ◌+◌, ◌-◌, ◌≤◌, ◌≡◌, inl, inr, refl, Bool, none, some, List, [], ◌∷◌, ◌++◌, ltb, leb, length,
  filter, map, lookup, Option-cases, Bool-cases, arith,
}
use discord_chat_bot.Dict.{Dict, set, remove, IsUnique}
use discord_chat_bot.Dict.Laws.{
  lookup-remove, remove_absent, remove-IsUnique, set-IsUnique, move_to_end-IsUnique,
  move_to_end-some,
}
use discord_chat_bot.Text.{Text}
use discord_chat_bot.Attachments.{
  Key, Key-discrete, MessageKey, Entry, AttachmentCache, new_cache, remove_key, remove_keys, expire,
  get, shrink, put, store, land, is_stale, LoadOutcome, failed, returned, finish, get_or_load,
  invalidate_message, record_invalidation, first, is_expired, is_of, Step, load, end, invalidate,
  step, steps,
}

abbrev pub total : Dict Key Entry → ℕ
total [] = 0
total ((k, item) ∷ d) = length item.value + total d

total-remove :
    (k : Key) (d : Dict Key Entry) (item : Entry)
    → IsUnique Key-discrete d
    → lookup Key-discrete k d ≡ some item
    → total (remove Key-discrete k d) + length item.value ≡ total d
unfolding lookup remove
total-remove k [] item u h = ground arith
total-remove k ((j, w) ∷ d) item u h =
    ground (arith, total-remove k d item u.1, remove_absent Key-discrete k d)

pub total-append : (d e : Dict Key Entry) → total (d ++ e) ≡ total d + total e
total-append [] e = omega arith
total-append ((k, i) ∷ d) e = omega (arith, total-append d e)

total-set :
    (k : Key) (item : Entry) (d : Dict Key Entry)
    → lookup Key-discrete k d ≡ none
    → total (set Key-discrete k item d) ≡ total d + length item.value
unfolding lookup set
total-set k item [] h = omega arith
total-set k item ((j, w) ∷ d) h = ground (arith, total-set k item d)

-- Every key stands once, the bytes are counted, and they are within the limit.
pub record IsSound (c : AttachmentCache) : Type 0 where
  pub unique : IsUnique Key-discrete c.entries
  pub counted : c.used ≡ total c.entries
  pub bounded : c.used ≤ c.max_bytes

pub shrink_lem :
    (limit : ℕ) (d : Dict Key Entry) (used : ℕ)
    → used ≡ total d
    → ((shrink limit d used).1 ≡ total (shrink limit d used).0) × ((shrink limit d used).1 ≤ limit)
unfolding shrink
shrink_lem limit [] used h = (h, omega (arith, h))
shrink_lem limit ((k, i) ∷ d) used h =
    ground (arith, shrink_lem limit d (used - length i.value) (omega (arith, h)))

shrink-IsUnique :
    (limit : ℕ) (d : Dict Key Entry) (used : ℕ)
    → IsUnique Key-discrete d
    → IsUnique Key-discrete (shrink limit d used).0
unfolding shrink
shrink-IsUnique limit [] used u = tt
shrink-IsUnique limit ((k, i) ∷ d) used u = elim (Bool-cases (ltb limit used)) [
  | inl e ↦ rw e (shrink-IsUnique limit d (used - length i.value) u.1)
  | inr e ↦ rw e u
]

module _ (c : AttachmentCache) (h : IsSound c) where
  pub remove_key-IsSound : (key : Key) → IsSound (remove_key c key)
  unfolding remove_key
  remove_key-IsSound key = elim (Option-cases (lookup Key-discrete key c.entries)) [
    | inl e ↦ rw (e, remove_key) h
    | inr (item, e) ↦
        let less = total-remove key c.entries item h.unique e in
        rw (e, remove_key)
          record {
            unique = remove-IsUnique Key-discrete key c.entries h.unique;
            counted = omega (arith, less, h.counted);
            bounded = omega (arith, h.bounded);
          }
  ]

pub remove_keys-IsSound :
    (c : AttachmentCache) (keys : List Key) → IsSound c → IsSound (remove_keys c keys)
unfolding remove_keys
remove_keys-IsSound c [] h = h
remove_keys-IsSound c (k ∷ keys) h =
    remove_keys-IsSound (remove_key c k) keys (remove_key-IsSound c h k)

-- The key has gone.
pub lookup-remove_key :
    (c : AttachmentCache) (key : Key) → lookup Key-discrete key (remove_key c key).entries ≡ none
unfolding remove_key
lookup-remove_key c key = elim (Option-cases (lookup Key-discrete key c.entries)) [
  | inl e ↦ rw (e, remove_key) e
  | inr (item, e) ↦
      rw (e, remove_key) (ground (arith, lookup-remove Key-discrete key key c.entries))
]

module _ (c : AttachmentCache) (h : IsSound c) (key : Key) where
  pub get-IsSound : (now : ℕ) → IsSound (get c key now).1
  unfolding get
  get-IsSound now = elim (Option-cases (lookup Key-discrete key c.entries)) [
    | inl e ↦ rw (e, get) h
    | inr (item, e) ↦ elim (Bool-cases (leb item.expires_at now)) [
      | inl q ↦ rw (e, get, q) (remove_key-IsSound c h key)
      | inr q ↦
          let same = total-append (remove Key-discrete key c.entries) ((key, item) ∷ []) in
          let less = total-remove key c.entries item h.unique e in
          let moved = move_to_end-some Key-discrete key c.entries item e in
          rw (e, get, q)
            record {
              unique = move_to_end-IsUnique Key-discrete key c.entries h.unique;
              counted = rw moved (omega (arith, less, same, h.counted));
              bounded = h.bounded;
            }
    ]
  ]

  limit-remove_key : (remove_key c key).max_bytes ≡ c.max_bytes
  unfolding remove_key
  limit-remove_key = elim (Option-cases (lookup Key-discrete key c.entries)) [
    | inl e ↦ rw (e, remove_key) refl
    | inr (item, e) ↦ rw (e, remove_key) refl
  ]

  put-IsSound : (value : Text) (now : ℕ) → IsSound (put c key value now)
  unfolding put
  put-IsSound value now =
      let fresh = remove_key c key in
      let sound = remove_key-IsSound c h key in
      let item : Entry = record { value = value; expires_at = now + c.ttl } in
      let d = set Key-discrete key item fresh.entries in
      let more = total-set key item fresh.entries (lookup-remove_key c key) in
      let kept =
        shrink_lem c.max_bytes d (fresh.used + length value) (omega (arith, more, sound.counted)) in
      record {
        unique =
            shrink-IsUnique c.max_bytes d (fresh.used + length value)
              (set-IsUnique Key-discrete key item fresh.entries sound.unique);
        counted = kept.0;
        bounded = omega (arith, kept.1, limit-remove_key);
      }

module _ (c : AttachmentCache) (h : IsSound c) (key : Key) where
  store-IsSound : (value : Text) (expiring now : ℕ) → IsSound (store c key value expiring now)
  unfolding store expire
  store-IsSound value expiring now = elim (Bool-cases (ltb c.max_bytes (length value))) [
    | inl e ↦ rw (e, store) h
    | inr e ↦
        rw (e, store)
          (put-IsSound (expire c expiring)
            (remove_keys-IsSound c (map first (filter (is_expired expiring) c.entries)) h) key value
            now)
  ]

  land-IsSound : (task : ℕ) → IsSound (land c key task)
  unfolding land
  land-IsSound task = record { unique = h.unique; counted = h.counted; bounded = h.bounded }

module _ (c : AttachmentCache) (h : IsSound c) where
  finish-IsSound :
      (key : Key) (task : ℕ) (outcome : LoadOutcome) (started expiring now : ℕ)
      → IsSound (finish c key task outcome started expiring now)
  unfolding finish
  finish-IsSound key task failed started expiring now = land-IsSound c h key task
  finish-IsSound key task (returned none) started expiring now = land-IsSound c h key task
  finish-IsSound key task (returned (some value)) started expiring now =
      let landed = land-IsSound c h key task in
      elim (Bool-cases (is_stale (land c key task) key started)) [
        | inl e ↦ rw (e, finish) landed
        | inr e ↦ rw (e, finish) (store-IsSound (land c key task) landed key value expiring now)
      ]

  get_or_load-IsSound : (key : Key) (task now : ℕ) → IsSound (get_or_load c key task now).1
  unfolding get_or_load
  get_or_load-IsSound key task now =
      let c' = (get c key now).1 in
      let sound = get-IsSound c h key now in
      elim (Option-cases (get c key now).0) [
        | inl e ↦ elim (Option-cases (lookup Key-discrete key c'.inflight)) [
          | inl q ↦
              rw (e, get_or_load, q)
                record { unique = sound.unique; counted = sound.counted; bounded = sound.bounded }
          | inr (t, q) ↦ rw (e, get_or_load, q) sound
        ]
        | inr (value, e) ↦ rw (e, get_or_load) sound
      ]

  invalidate_message-IsSound :
      (message : MessageKey) (deleted : Bool) (now : ℕ)
      → IsSound (invalidate_message c message deleted now)
  unfolding invalidate_message record_invalidation
  invalidate_message-IsSound message deleted now =
      remove_keys-IsSound (record_invalidation c message deleted now)
        (map first (filter (is_of message) c.entries))
        record { unique = h.unique; counted = h.counted; bounded = h.bounded }

  step-IsSound : (x : Step) → IsSound (step c x)
  unfolding step
  step-IsSound (load key task now) = get_or_load-IsSound key task now
  step-IsSound (end key task outcome started expiring now) =
      finish-IsSound key task outcome started expiring now
  step-IsSound (invalidate message deleted now) = invalidate_message-IsSound message deleted now

steps_from : (c : AttachmentCache) (xs : List Step) → IsSound c → IsSound (steps c xs)
unfolding steps
steps_from c [] h = h
steps_from c (x ∷ xs) h = steps_from (step c x) xs (step-IsSound c h x)

-- From an empty cache, any sequence of loads, ends of loads and invalidations keeps one entry at
-- most for a key, counts the bytes of the entries exactly, and stays within the limit.
pub steps-IsSound : (limit ttl : ℕ) (xs : List Step) → IsSound (steps (new_cache limit ttl) xs)
steps-IsSound limit ttl xs =
    steps_from (new_cache limit ttl) xs
      record { unique = tt; counted = refl; bounded = omega arith }
