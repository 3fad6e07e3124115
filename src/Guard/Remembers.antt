-- ===== src/Guard/Remembers.antt =====
-- The verdicts that the guard remembers, and a whole check of a web request.
use discord_chat_bot.Prelude.{
  ℕ, ◌+◌, ◌≤◌, ◌<◌, ◌≡◌, ◌⊎◌, inl, inr, refl, ap, ◌∙◌, ◌≢◌, Bool, true, false, some, List, [], ◌∷◌,
  ltb, ◌==◌, if◌then◌else◌, length, lookup, Bool-cases, Option-cases, arith,
}
use discord_chat_bot.Dict.Laws.{lookup-remove, lookup-set, lookup-set_same, length-set-le}
use discord_chat_bot.Text.{Text, Text-discrete}
use discord_chat_bot.Guard.{
  Settings, Outcome, Moderated, allows, Cache, cache_lookup, cache_store, remember, asked, moderate,
  check_web_request,
}
use discord_chat_bot.Guard.Ends.{IsUnsafe, EndsFrom, ask_endpoint-ends}

abbrev roomy : Cache → Cache
roomy cache = if ltb 1000 (length cache) then [] else cache

lookup-cache_store :
    (settings : Settings) (text : Text) (verdict : Bool) (now : ℕ) (cache : Cache)
    → (settings.cache_ttl == 0) ≡ false
    → lookup Text-discrete text (cache_store settings text verdict now cache)
      ≡ some (verdict, now + settings.cache_ttl)
unfolding cache_store
lookup-cache_store settings text verdict now cache h =
    rw h (lookup-set_same Text-discrete text (verdict, now + settings.cache_ttl) (roomy cache))

cache_lookup-hit :
    (text : Text) (t : ℕ) (cache : Cache) (verdict : Bool) (until : ℕ)
    → lookup Text-discrete text cache ≡ some (verdict, until)
    → t ≤ until
    → (cache_lookup text t cache).0 ≡ some verdict
unfolding cache_lookup
cache_lookup-hit text t cache verdict until h l =
    let live : ltb until t ≡ false = ground (arith, l) in rw (cache_lookup, h, live) refl

-- what is done with the cache at the clock's reading
pub data Use : Type 0 where
  looks : Text → Use
  stores : Text → Bool → Use

unfoldable pub use_cache : Settings → Use → ℕ → Cache → Cache
use_cache settings (looks text) now cache = (cache_lookup text now cache).1
use_cache settings (stores text verdict) now cache = cache_store settings text verdict now cache

unfoldable pub use_all : Settings → List (Use × ℕ) → Cache → Cache
use_all settings [] cache = cache
use_all settings ((u, now) ∷ us) cache = use_all settings us (use_cache settings u now cache)

-- A look comes by the time; a verdict that is stored is another text's, and there is room for it.
abbrev pub IsCalm : Text → ℕ → Use → ℕ → Cache → Type 0
IsCalm text until (looks other) now cache = now ≤ until
IsCalm text until (stores other verdict) now cache = (text ≢ other) × (length cache ≤ 1000)

unfoldable pub AreCalm : Settings → Text → ℕ → List (Use × ℕ) → Cache → Type 0
AreCalm settings text until [] cache = Unit
AreCalm settings text until ((u, now) ∷ us) cache =
    IsCalm text until u now cache × AreCalm settings text until us (use_cache settings u now cache)

module _ (settings : Settings) (text : Text) (verdict : Bool) (until : ℕ) where
  use_cache-lookup :
      (u : Use) (now : ℕ) (cache : Cache)
      → IsCalm text until u now cache
      → lookup Text-discrete text cache ≡ some (verdict, until)
      → lookup Text-discrete text (use_cache settings u now cache) ≡ some (verdict, until)
  unfolding use_cache cache_lookup cache_store
  use_cache-lookup (looks other) now cache c h =
      ground (arith, c, h, lookup-remove Text-discrete other text cache)
  use_cache-lookup (stores other v) now cache c h = elim (Bool-cases (settings.cache_ttl == 0)) [
    | inl e ↦ rw e h
    | inr e ↦
        let room : ltb 1000 (length cache) ≡ false = ground (arith, c.1) in
        rw (e, room)
          (ground (
            arith,
            lookup-set Text-discrete other text (v, now + settings.cache_ttl) cache,
            c.0,
            h,
          ))
  ]

  use_all-lookup :
      (us : List (Use × ℕ)) (cache : Cache)
      → AreCalm settings text until us cache
      → lookup Text-discrete text cache ≡ some (verdict, until)
      → lookup Text-discrete text (use_all settings us cache) ≡ some (verdict, until)
  unfolding use_all AreCalm
  use_all-lookup [] cache c h = h
  use_all-lookup ((u, now) ∷ us) cache c h =
      use_all-lookup us (use_cache settings u now cache) c.1 (use_cache-lookup u now cache c.0 h)

-- A verdict that is stored, where the time to live is not 0, is found until it runs out, whatever is
-- looked up by then and whatever verdicts of other texts are stored, as long as none of these finds
-- more than 1000 verdicts in the cache, which clears it.
pub cache_lookup-use_all :
    (settings : Settings) (text : Text) (verdict : Bool) (now t : ℕ) (us : List (Use × ℕ))
    (cache : Cache)
    → (settings.cache_ttl == 0) ≡ false
    → AreCalm settings text
        (now + settings.cache_ttl)
        us
        (cache_store settings text verdict now cache)
    → t ≤ now + settings.cache_ttl
    → (cache_lookup text t (use_all settings us (cache_store settings text verdict now cache))).0
      ≡ some verdict
cache_lookup-use_all settings text verdict now t us cache h c l =
    let until = now + settings.cache_ttl in
    let stored = cache_store settings text verdict now cache in
    cache_lookup-hit text t (use_all settings us stored) verdict until
      (use_all-lookup settings text verdict until us stored c
        (lookup-cache_store settings text verdict now cache h))
      l

length-roomy : (cache : Cache) → length (roomy cache) ≤ 1000
length-roomy cache = ground arith

-- The cache keeps at most 1001 verdicts.
pub cache_store-bounded :
    (settings : Settings) (text : Text) (verdict : Bool) (now : ℕ) (cache : Cache)
    → length cache ≤ 1001
    → length (cache_store settings text verdict now cache) ≤ 1001
unfolding cache_store
cache_store-bounded settings text verdict now cache h =
    elim (Bool-cases (settings.cache_ttl == 0)) [
      | inl e ↦ rw e h
      | inr e ↦ rw e (
          omega (
            arith,
            length-set-le Text-discrete text (verdict, now + settings.cache_ttl) (roomy cache),
            length-roomy cache,
          ))
    ]

-- why a request may be blocked: a remembered verdict, or a response of the endpoint's
unfoldable pub IsBlockedBy : Settings → (ℕ → Outcome) → Text → ℕ → Cache → Type 0
IsBlockedBy settings endpoint text now cache =
    ((cache_lookup text now cache).0 ≡ some false)
    ⊎ ((k : ℕ) × (k ≤ settings.max_retries) × IsUnsafe (endpoint k))

if-true {ℓ} : {A : Type ℓ} (b : Bool) (x y : A) → b ≡ true → (if b then x else y) ≡ x
if-true true x y h = refl
if-true false x y h = cc h

blocked_by :
    (settings : Settings) (endpoint : ℕ → Outcome) (text : Text) (now : ℕ) (cache : Cache)
    (m : Moderated)
    → EndsFrom settings endpoint 0 m
    → (allows m.answer ≡ true) ⊎ IsBlockedBy settings endpoint text now cache
unfolding EndsFrom IsBlockedBy
blocked_by settings endpoint text now cache m ends = elim ends.2 [
  | inl a ↦ inl a
  | inr (k, l, u) ↦ inr (inr (k, omega (arith, l, ends.1), u))
]

moderate-ends :
    (settings : Settings) (endpoint : ℕ → Outcome) (text : Text) (fuel now later : ℕ)
    (cache : Cache)
    → settings.max_retries < fuel
    → (allowed : Bool) × (cache' : Cache) × (moderate settings endpoint text fuel now later cache
        ≡ some (allowed, cache'))
      × ((allowed ≡ true) ⊎ IsBlockedBy settings endpoint text now cache)
unfolding IsBlockedBy moderate
moderate-ends settings endpoint text fuel now later cache h =
    elim (Option-cases (cache_lookup text now cache).0) [
      | inr (true, e) ↦ (true, (cache_lookup text now cache).1, rw (moderate, e) refl, inl refl)
      | inr (false, e) ↦
          (false, (cache_lookup text now cache).1, rw (moderate, e) refl, inr (inl e))
      | inl e ↦ elim (Bool-cases settings.has_key) [
        | inr k ↦ (true, (cache_lookup text now cache).1, rw (moderate, e, k) refl, inl refl)
        | inl k ↦
            let (m, q, ends) =
              ask_endpoint-ends settings endpoint fuel 0 0 (omega arith) (omega (arith, h)) in
            (
              allows m.answer,
              remember settings text m.answer later (cache_lookup text now cache).1,
              rw (moderate, e)
                  (if-true settings.has_key _ _ k
                    ∙ ap (asked settings text later (cache_lookup text now cache).1) q),
              blocked_by settings endpoint text now cache m ends,
            )
      ]
    ]

-- With more fuel than retries a check of a web request ends, and it blocks only for such a reason.
pub check_web_request-ends :
    (settings : Settings) (endpoint : ℕ → Outcome) (text : Text) (fuel now later : ℕ)
    (cache : Cache)
    → settings.max_retries < fuel
    → (allowed : Bool) × (cache' : Cache) × (check_web_request settings endpoint text fuel now later
          cache
        ≡ some (allowed, cache'))
      × ((allowed ≡ true) ⊎ IsBlockedBy settings endpoint text now cache)
unfolding check_web_request
check_web_request-ends settings endpoint text fuel now later cache h =
    elim (Bool-cases settings.enabled) [
      | inl e ↦
          let (allowed, cache', q, b) =
            moderate-ends settings endpoint text fuel now later cache h in
          (allowed, cache', if-true settings.enabled _ _ e ∙ q, b)
      | inr e ↦ (true, cache, rw e refl, inl refl)
    ]
