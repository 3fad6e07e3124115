-- ===== src/Tests/GuardRuns.antt =====
-- An endpoint that is overloaded once and then judges.
use discord_chat_bot.Prelude.{
  ℕ, suc, zero, ◌≡◌, ◌⊎◌, refl, Bool, true, false, none, some, List, [], ◌∷◌, ap, lookup,
  ℕ_discrete, arith,
}
use discord_chat_bot.Dict.{set, remove}
use discord_chat_bot.Text.{Text, codes, Text-discrete}
use discord_chat_bot.Guard.{
  Settings, Result, is_unsafe, Outcome, network_failure, response, is_retryable, retry_delay, delay,
  answer_of, tries_again, ask_endpoint, Cache, cache_lookup, cache_store, remember, moderate,
  check_web_request,
}
use discord_chat_bot.Guard.Remembers.{
  Use, looks, stores, use_cache, use_all, AreCalm, IsBlockedBy, check_web_request-ends,
  cache_lookup-use_all,
}

program : Unit {0}
unfolding Text-discrete ℕ_discrete lookup set remove is_unsafe is_retryable retry_delay delay
    answer_of tries_again ask_endpoint cache_lookup cache_store remember moderate check_web_request
    use_cache AreCalm
program = tt

abbrev settings : Settings
settings = record {
  enabled = true;
  has_key = true;
  cache_ttl = 600000;
  max_retries = 2;
  retry_backoff = 2000;
}

abbrev violent : Result
violent = record { flagged = false; categories = (codes "violence", true) ∷ [] }

abbrev endpoint : ℕ → Outcome
endpoint zero = response 429 none none
endpoint (suc n) = response 200 (some (some violent)) none

check_test :
    (check_web_request settings endpoint (codes "knife") 3 0 10 []
      ≡ some (false, (codes "knife", (false, 600010)) ∷ []))
    × (check_web_request settings (λ n. network_failure) (codes "knife") 3 0 10 []
        ≡ some (true, []))
unfolding program
check_test = (refl, refl)

check_web_request-ends_example :
    (allowed : Bool) × (cache' : Cache) × (check_web_request settings endpoint
        (codes "knife")
        3
        0
        10
        []
      ≡ some (allowed, cache'))
    × ((allowed ≡ true) ⊎ IsBlockedBy settings endpoint (codes "knife") 0 [])
check_web_request-ends_example =
    check_web_request-ends settings endpoint (codes "knife") 3 0 10 [] (omega arith)

abbrev uses : List (Use × ℕ)
uses = (stores (codes "x") true, 20) ∷ (looks (codes "knife"), 30) ∷ []

abbrev first : Text → ℕ
first [] = 0
first (c ∷ s) = c

uses-AreCalm :
    AreCalm settings (codes "knife") 600010 uses (cache_store settings (codes "knife") false 10 [])
unfolding program
uses-AreCalm = ((λ p. omega (arith, ap first p), omega arith), (omega arith, tt))

cache_lookup-use_all_example :
    (cache_lookup
      (codes "knife")
      600010
      (use_all settings uses (cache_store settings (codes "knife") false 10 []))).0
    ≡ some false
cache_lookup-use_all_example =
    cache_lookup-use_all settings (codes "knife") false 10 600010 uses [] refl uses-AreCalm
      (omega arith)
