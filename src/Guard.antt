-- ===== src/Guard.antt =====
-- core/classes/content_guard.py: the moderation of web requests. The moderation endpoint is an
-- argument: its answer to each attempt. The environment settings are a record; times are in
-- milliseconds.
pub mod Ends
pub mod Remembers
use discord_chat_bot.Prelude.{
  ℕ, zero, suc, ◌+◌, ◌*◌, ◌^◌, min, Bool, true, false, not, ◌&&◌, ◌||◌, Option, none, some, List,
  [], ◌∷◌, ltb, ◌==◌, if◌then◌else◌, any, length, lookup,
}
use discord_chat_bot.Dict.{Dict, set, remove}
use discord_chat_bot.Text.{Text, Text-discrete}

pub record Settings : Type 0 where
  pub enabled : Bool
  pub has_key : Bool
  pub cache_ttl : ℕ
  pub max_retries : ℕ
  pub retry_backoff : ℕ

-- A moderation result that is a dictionary: whether its flag is set, and its categories with
-- whether each is true.
pub record Result : Type 0 where
  pub flagged : Bool
  pub categories : List (Text × Bool)

unfoldable pub is_unsafe : Option Result → Bool
is_unsafe none = false
is_unsafe (some r) = r.flagged || any (λ c. c.1) r.categories

-- The first of a response's results: none if there is none to read, else the result, which need
-- not be a dictionary.
abbrev pub FirstResult : Type 0
FirstResult = Option (Option Result)

-- What the endpoint answers: nothing, or a status with the result and the Retry-After header's
-- number.
pub data Outcome : Type 0 where
  network_failure : Outcome
  response : ℕ → FirstResult → Option ℕ → Outcome

unfoldable pub is_retryable : ℕ → Bool
is_retryable status = any (λ n. n == status) (429 ∷ 500 ∷ 502 ∷ 503 ∷ 504 ∷ [])

unfoldable pub retry_delay : Settings → ℕ → ℕ
retry_delay settings attempt = settings.retry_backoff * 2 ^ attempt

-- `_retry_from_headers(headers) or _retry_delay(attempt)`
unfoldable pub delay : Settings → Option ℕ → ℕ → ℕ
delay settings none attempt = retry_delay settings attempt
delay settings (some zero) attempt = retry_delay settings attempt
delay settings (some (suc n)) attempt = min (suc n) 60000

-- A verdict to remember, or an answer that fails open; with the requests made and the time slept.
pub data Answer : Type 0 where
  judged : Bool → Answer
  failed_open : Answer

pub record Moderated : Type 0 where
  pub answer : Answer
  pub posts : ℕ
  pub slept : ℕ

abbrev pub allows : Answer → Bool
allows (judged safe) = safe
allows failed_open = true

unfoldable pub answer_of : FirstResult → Answer
answer_of none = failed_open
answer_of (some r) = judged (not (is_unsafe r))

abbrev pub moderated : Answer → ℕ → ℕ → Option Moderated
moderated answer posts slept = some (record { answer = answer; posts = posts; slept = slept })

-- whether the attempt is made again
unfoldable pub tries_again : Settings → ℕ → ℕ → Bool
tries_again settings status attempt = is_retryable status && ltb attempt settings.max_retries

-- the loop of `moderate_with_openai`, on fuel
unfoldable pub ask_endpoint : Settings → (ℕ → Outcome) → ℕ → ℕ → ℕ → Option Moderated
ask_endpoint settings endpoint zero attempt slept = none
ask_endpoint settings endpoint (suc fuel) attempt slept = elim (endpoint attempt) [
  | network_failure ↦ moderated failed_open (attempt + 1) slept
  | response status first after ↦
      let again =
        ask_endpoint settings endpoint fuel (attempt + 1) (slept + delay settings after attempt) in
      if status == 200
      then moderated (answer_of first) (attempt + 1) slept
      else if tries_again settings status attempt
      then again
      else moderated failed_open (attempt + 1) slept
]

abbrev pub Cache : Type 0
Cache = Dict Text (Bool × ℕ)

-- the cached verdict, and the cache without an entry that has run out
unfoldable pub cache_lookup : Text → ℕ → Cache → Option Bool × Cache
cache_lookup text now cache = elim (lookup Text-discrete text cache) [
  | none ↦ (none, cache)
  | some (verdict, expires_at) ↦
      if ltb expires_at now then (none, remove Text-discrete text cache) else (some verdict, cache)
]

unfoldable pub cache_store : Settings → Text → Bool → ℕ → Cache → Cache
cache_store settings text verdict now cache =
    if settings.cache_ttl == 0
    then cache
    else set Text-discrete text (verdict, now + settings.cache_ttl)
        (if ltb 1000 (length cache) then [] else cache)

unfoldable pub remember : Settings → Text → Answer → ℕ → Cache → Cache
remember settings text failed_open now cache = cache
remember settings text (judged verdict) now cache = cache_store settings text verdict now cache

abbrev pub asked : Settings → Text → ℕ → Cache → Option Moderated → Option (Bool × Cache)
asked settings text later cache none = none
asked settings text later cache (some m) =
    some (allows m.answer, remember settings text m.answer later cache)

-- `moderate_with_openai`, at the clock's readings before and after the endpoint is asked; none if
-- the loop runs out of fuel
unfoldable pub moderate :
    Settings → (ℕ → Outcome) → Text → ℕ → ℕ → ℕ → Cache → Option (Bool × Cache)
moderate settings endpoint text fuel now later cache =
    let (cached, cache') = cache_lookup text now cache in
    elim cached [
      | some verdict ↦ some (verdict, cache')
      | none ↦
          if settings.has_key
          then asked settings text later cache' (ask_endpoint settings endpoint fuel 0 0)
          else some (true, cache')
    ]

unfoldable pub check_web_request :
    Settings → (ℕ → Outcome) → Text → ℕ → ℕ → ℕ → Cache → Option (Bool × Cache)
check_web_request settings endpoint text fuel now later cache =
    if settings.enabled
    then moderate settings endpoint text fuel now later cache
    else some (true, cache)
