-- ===== src/Attachments.antt =====
-- core/classes/attachment_cache.py: the encoded images that prompts reuse. A task is its number, a
-- clock reading is an argument, and each function is one step of the event loop: `finish` is the
-- callback that runs when a task is done. `used` is `_bytes`.
pub mod Bytes
pub mod Stale
pub mod Found
use discord_chat_bot.Prelude.{
  ℕ, ◌+◌, ◌-◌, Bool, true, false, ◌&&◌, ◌||◌, Option, none, some, List, [], ◌∷◌, ltb, leb, ◌==◌,
  if◌then◌else◌, length, filter, map, lookup, ite, ℕ_discrete,
}
use discord_chat_bot.Dict.{Dict, set, remove, move_to_end}
use discord_chat_bot.Text.{Text}

-- (channel id, message id), and the attachment id
abbrev pub MessageKey : Type 0
MessageKey = ℕ × ℕ

abbrev pub Key : Type 0
Key = MessageKey × ℕ

unfoldable pub MessageKey-discrete : Discrete MessageKey
MessageKey-discrete = hlevel ℕ_discrete

unfoldable pub Key-discrete : Discrete Key
Key-discrete = hlevel (MessageKey-discrete, ℕ_discrete)

pub record Entry : Type 0 where
  pub value : Text
  pub expires_at : ℕ

pub record Invalidation : Type 0 where
  pub number : ℕ
  pub deleted : Bool
  pub recorded_at : ℕ

pub record AttachmentCache : Type 0 where
  pub max_bytes : ℕ
  pub ttl : ℕ
  pub entries : Dict Key Entry
  pub used : ℕ
  pub inflight : List (Key × ℕ)
  pub generation : ℕ
  pub invalidated : Dict MessageKey Invalidation

abbrev pub new_cache : ℕ → ℕ → AttachmentCache
new_cache max_bytes ttl = record {
  max_bytes = max_bytes;
  ttl = ttl;
  entries = [];
  used = 0;
  inflight = [];
  generation = 0;
  invalidated = [];
}

-- `_remove`, which is called at keys that are there
unfoldable pub remove_key : AttachmentCache → Key → AttachmentCache
remove_key c key = elim (lookup Key-discrete key c.entries) [
  | none ↦ c
  | some item ↦ record c {
    entries = remove Key-discrete key c.entries;
    used = c.used - length item.value;
  }
]

unfoldable pub remove_keys : AttachmentCache → List Key → AttachmentCache
unfolding remove_key
remove_keys c [] = c
remove_keys c (key ∷ keys) = remove_keys (remove_key c key) keys

abbrev pub first : Key × Entry → Key
first e = e.0

abbrev pub is_expired : ℕ → Key × Entry → Bool
is_expired now e = leb e.1.expires_at now

unfoldable pub expire : AttachmentCache → ℕ → AttachmentCache
unfolding remove_keys
expire c now = remove_keys c (map first (filter (is_expired now) c.entries))

unfoldable pub get : AttachmentCache → Key → ℕ → Option Text × AttachmentCache
unfolding remove_key
get c key now = elim (lookup Key-discrete key c.entries) [
  | none ↦ (none, c)
  | some item ↦
      if leb item.expires_at now
      then (none, remove_key c key)
      else (some item.value, record c { entries = move_to_end Key-discrete key c.entries })
]

-- `while self._bytes > self.max_bytes`, over the entries, the oldest first
unfoldable pub shrink : ℕ → Dict Key Entry → ℕ → Dict Key Entry × ℕ
shrink max_bytes [] used = ([], used)
shrink max_bytes ((key, item) ∷ d) used =
    let rest = shrink max_bytes d (used - length item.value) in
    if ltb max_bytes used then rest else ((key, item) ∷ d, used)

-- the entry, at the end, with its size counted
unfoldable pub put : AttachmentCache → Key → Text → ℕ → AttachmentCache
unfolding remove_key shrink
put c key value now =
    let fresh = remove_key c key in
    let item : Entry = record { value = value; expires_at = now + c.ttl } in
    let kept =
      shrink c.max_bytes (set Key-discrete key item fresh.entries) (fresh.used + length value) in
    record fresh { entries = kept.0; used = kept.1 }

unfoldable pub store : AttachmentCache → Key → Text → ℕ → ℕ → AttachmentCache
unfolding expire put
store c key value expiring now =
    let stored = put (expire c expiring) key value now in
    if ltb c.max_bytes (length value) then c else stored

-- What a task ended with: it was cancelled or raised, or it returned.
pub data LoadOutcome : Type 0 where
  failed : LoadOutcome
  returned : Option Text → LoadOutcome

-- the task no longer loads the key
unfoldable pub land : AttachmentCache → Key → ℕ → AttachmentCache
land c key task =
    let left = remove Key-discrete key c.inflight in
    record c {
      inflight = elim (lookup Key-discrete key c.inflight) [
        | none ↦ c.inflight
        | some t ↦ if t == task then left else c.inflight
      ];
    }

-- the load began before the message was last invalidated
unfoldable pub is_stale : AttachmentCache → Key → ℕ → Bool
is_stale c key started = elim (lookup MessageKey-discrete key.0 c.invalidated) [
  | none ↦ false
  | some r ↦ ltb started r.number
]

unfoldable pub finish : AttachmentCache → Key → ℕ → LoadOutcome → ℕ → ℕ → ℕ → AttachmentCache
unfolding land is_stale store
finish c key task failed started expiring now = land c key task
finish c key task (returned none) started expiring now = land c key task
finish c key task (returned (some value)) started expiring now =
    let landed = land c key task in
    let stored = store landed key value expiring now in
    if is_stale landed key started then landed else stored

-- What a caller of `get_or_load` gets: a value, or the task that it waits for.
pub data Answer : Type 0 where
  hit : Text → Answer
  coalesced : ℕ → Answer
  miss : ℕ → ℕ → Answer

-- `task` is the number that a new task would have; a miss carries the generation it starts in
unfoldable pub get_or_load : AttachmentCache → Key → ℕ → ℕ → Answer × AttachmentCache
unfolding get
get_or_load c key task now =
    let (found, c') = get c key now in
    elim found [
      | some value ↦ (hit value, c')
      | none ↦ elim (lookup Key-discrete key c'.inflight) [
        | some t ↦ (coalesced t, c')
        | none ↦ (
          miss task c'.generation,
          record c' { inflight = set Key-discrete key task c'.inflight },
        )
      ]
    ]

-- the records that are at most a lifetime old
unfoldable pub prune_invalidated :
    ℕ → ℕ → Dict MessageKey Invalidation → Dict MessageKey Invalidation
prune_invalidated ttl now [] = []
prune_invalidated ttl now ((k, r) ∷ d) =
    let rest = prune_invalidated ttl now d in
    if ltb ttl (now - r.recorded_at) then rest else (k, r) ∷ rest

abbrev pub was_deleted : Option Invalidation → Bool
was_deleted none = false
was_deleted (some r) = r.deleted

abbrev pub is_of : MessageKey → Key × Entry → Bool
is_of message e = ite (MessageKey-discrete e.0.0 message) true false

-- the message's new record, in the next generation; one that was deleted stays so
abbrev pub new_invalidation : ℕ → Bool → Option Invalidation → ℕ → Invalidation
new_invalidation generation deleted previous now = record {
  number = generation + 1;
  deleted = deleted || was_deleted previous;
  recorded_at = now;
}

unfoldable pub record_invalidation : AttachmentCache → MessageKey → Bool → ℕ → AttachmentCache
unfolding prune_invalidated
record_invalidation c message deleted now =
    let kept = prune_invalidated c.ttl now c.invalidated in
    let r = new_invalidation c.generation deleted (lookup MessageKey-discrete message kept) now in
    record c { generation = c.generation + 1; invalidated = set MessageKey-discrete message r kept }

unfoldable pub invalidate_message : AttachmentCache → MessageKey → Bool → ℕ → AttachmentCache
unfolding record_invalidation remove_keys
invalidate_message c message deleted now =
    remove_keys (record_invalidation c message deleted now)
      (map first (filter (is_of message) c.entries))

abbrev pub deleted_after : ℕ → Option Invalidation → Bool
deleted_after number none = false
deleted_after number (some r) = r.deleted && ltb number r.number

-- the set, as the list of those ids that are in it
unfoldable pub deleted_since : AttachmentCache → ℕ → ℕ → List ℕ → List ℕ
deleted_since c number channel ids =
    filter (λ id. deleted_after number (lookup MessageKey-discrete (channel, id) c.invalidated)) ids

-- One step of the event loop that reaches the cache.
pub data Step : Type 0 where
  load : Key → ℕ → ℕ → Step
  end : Key → ℕ → LoadOutcome → ℕ → ℕ → ℕ → Step
  invalidate : MessageKey → Bool → ℕ → Step

unfoldable pub step : AttachmentCache → Step → AttachmentCache
step c (load key task now) = (get_or_load c key task now).1
step c (end key task outcome started expiring now) = finish c key task outcome started expiring now
step c (invalidate message deleted now) = invalidate_message c message deleted now

unfoldable pub steps : AttachmentCache → List Step → AttachmentCache
unfolding step
steps c [] = c
steps c (x ∷ xs) = steps (step c x) xs
