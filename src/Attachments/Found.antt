-- ===== src/Attachments/Found.antt =====
-- Entries of core/classes/attachment_cache.py: stored, found and forgotten.
use discord_chat_bot.Prelude.{
  ℕ, ◌+◌, ◌-◌, ◌≤◌, ◌<◌, ◌≡◌, inl, inr, refl, subst, ◌∙◌, Bool, true, false, none, some, List, [],
  ◌∷◌, ◌++◌, ltb, length, filter, map, lookup, Option-cases, Bool-cases, arith,
}
use discord_chat_bot.Dict.{Dict, set}
use discord_chat_bot.Dict.Laws.{lookup-remove, lookup-push}
use discord_chat_bot.Text.{Text}
use discord_chat_bot.Attachments.{
  Key, Key-discrete, MessageKey, Entry, AttachmentCache, remove_key, remove_keys, expire, get,
  shrink, put, store, invalidate_message, record_invalidation, first, is_expired, is_of,
}
use discord_chat_bot.Attachments.Bytes.{
  IsSound, total, total-append, remove_key-IsSound, lookup-remove_key, remove_keys-IsSound,
}

set_new :
    (k : Key) (v : Entry) (d : Dict Key Entry)
    → lookup Key-discrete k d ≡ none
    → set Key-discrete k v d ≡ d ++ (k, v) ∷ []
unfolding lookup set
set_new k v [] h = refl
set_new k v ((j, w) ∷ d) h = ground (arith, set_new k v d)

-- The newest entry outlasts the eviction, if the limit has room for it.
lookup-shrink :
    (limit : ℕ) (d : Dict Key Entry) (k : Key) (item : Entry) (used : ℕ)
    → lookup Key-discrete k d ≡ none
    → length item.value ≤ limit
    → used ≡ total (d ++ (k, item) ∷ [])
    → lookup Key-discrete k (shrink limit (d ++ (k, item) ∷ []) used).0 ≡ some item
unfolding lookup shrink
lookup-shrink limit [] k item used n fits h = ground (arith, h)
lookup-shrink limit ((j, w) ∷ d) k item used n fits h = elim (Bool-cases (ltb limit used)) [
  | inl e ↦
      rw e (
        lookup-shrink limit d k item (used - length w.value) (ground arith) fits (omega (arith, h)))
  | inr e ↦ rw e (ground (arith, lookup-push Key-discrete k k item ((j, w) ∷ d) n))
]

limits-remove_key :
    (c : AttachmentCache) (k : Key)
    → ((remove_key c k).max_bytes ≡ c.max_bytes) × ((remove_key c k).ttl ≡ c.ttl)
unfolding remove_key
limits-remove_key c k = elim (Option-cases (lookup Key-discrete k c.entries)) [
  | inl e ↦ rw (e, remove_key) (refl, refl)
  | inr (item, e) ↦ rw (e, remove_key) (refl, refl)
]

limits-remove_keys :
    (c : AttachmentCache) (ks : List Key)
    → ((remove_keys c ks).max_bytes ≡ c.max_bytes) × ((remove_keys c ks).ttl ≡ c.ttl)
unfolding remove_keys
limits-remove_keys c [] = (refl, refl)
limits-remove_keys c (k ∷ ks) =
    ground (arith, limits-remove_keys (remove_key c k) ks, limits-remove_key c k)

lookup-put :
    (c : AttachmentCache) (key : Key) (value : Text) (now : ℕ)
    → IsSound c
    → length value ≤ c.max_bytes
    → lookup Key-discrete key (put c key value now).entries
      ≡ some (record { value = value; expires_at = now + c.ttl })
unfolding put
lookup-put c key value now h fits =
    let fresh = remove_key c key in
    let sound = remove_key-IsSound c h key in
    let item : Entry = record { value = value; expires_at = now + c.ttl } in
    let gone = lookup-remove_key c key in
    let more = total-append fresh.entries ((key, item) ∷ []) in
    rw (set_new key item fresh.entries gone) (
      lookup-shrink c.max_bytes fresh.entries key item (fresh.used + length value) gone fits
        (omega (arith, more, sound.counted)))

get-found :
    (c : AttachmentCache) (key : Key) (item : Entry) (now : ℕ)
    → lookup Key-discrete key c.entries ≡ some item
    → now < item.expires_at
    → (get c key now).0 ≡ some item.value
unfolding get
get-found c key item now e h = rw (e, get) (ground (arith, h))

-- A stored value that fits the cache is found by any read before its lifetime is over.
pub get-store :
    (c : AttachmentCache) (key : Key) (value : Text) (expiring now later : ℕ)
    → IsSound c
    → length value ≤ c.max_bytes
    → later < now + c.ttl
    → (get (store c key value expiring now) key later).0 ≡ some value
unfolding store expire
get-store c key value expiring now later h fits soon =
    let gone = map first (filter (is_expired expiring) c.entries) in
    let left = remove_keys c gone in
    let same = limits-remove_keys c gone in
    let found =
      lookup-put left key value now (remove_keys-IsSound c gone h) (omega (arith, fits, same.0)) in
    let fits_test : ltb c.max_bytes (length value) ≡ false = ground (arith, fits) in
    rw (fits_test, store)
      (get-found (put left key value now) key
        (record { value = value; expires_at = now + left.ttl }) later found
        (omega (arith, soon, same.1)))

lookup-absent :
    (c : AttachmentCache) (j k : Key)
    → lookup Key-discrete k c.entries ≡ none
    → lookup Key-discrete k (remove_key c j).entries ≡ none
unfolding remove_key
lookup-absent c j k h = elim (Option-cases (lookup Key-discrete j c.entries)) [
  | inl e ↦ rw (e, remove_key) h
  | inr (item, e) ↦ rw (e, remove_key) (ground (arith, h, lookup-remove Key-discrete j k c.entries))
]

lookup-forgotten :
    (c : AttachmentCache) (message : MessageKey) (d : Dict Key Entry) (k : Key)
    → k.0 ≡ message
    → (lookup Key-discrete k d ≡ none → lookup Key-discrete k c.entries ≡ none)
    → lookup Key-discrete k (remove_keys c (map first (filter (is_of message) d))).entries ≡ none
unfolding lookup remove_keys
lookup-forgotten c message [] k m h = h refl
lookup-forgotten c message ((j, w) ∷ d) k m h =
    let tested = lookup-forgotten (remove_key c j) message d k m in
    let passed = lookup-forgotten c message d k m in
    elim (Key-discrete k j) [
      | yes p ↦
          let e : is_of message (j, w) ≡ true = ground (arith, p, m) in
          let gone : lookup Key-discrete k (remove_key c j).entries ≡ none =
            subst (λ x. lookup Key-discrete k (remove_key c x).entries ≡ none) p
              (lookup-remove_key c k) in
          rw e (tested (λ _. gone))
      | no n ↦
          let other : lookup Key-discrete k ((j, w) ∷ d) ≡ lookup Key-discrete k d =
            ground (arith, n) in
          elim (Bool-cases (is_of message (j, w))) [
            | inl e ↦ rw e (tested (λ q. lookup-absent c j k (h (other ∙ q))))
            | inr e ↦ rw e (passed (λ q. h (other ∙ q)))
          ]
    ]

-- An invalidated message has no entry left.
pub lookup-invalidate_message :
    (c : AttachmentCache) (key : Key) (deleted : Bool) (now : ℕ)
    → lookup Key-discrete key (invalidate_message c key.0 deleted now).entries ≡ none
unfolding invalidate_message record_invalidation
lookup-invalidate_message c key deleted now =
    lookup-forgotten (record_invalidation c key.0 deleted now) key.0 c.entries key refl (λ e. e)
