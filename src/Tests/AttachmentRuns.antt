-- ===== src/Tests/AttachmentRuns.antt =====
-- A cache of ten characters: loads, evictions, expiry and invalidations.
use discord_chat_bot.Prelude.{◌≡◌, refl, true, false, some, [], ◌∷◌, map, lookup, ℕ_discrete, arith}
use discord_chat_bot.Text.{codes}
use discord_chat_bot.Dict.{set, remove, move_to_end}
use discord_chat_bot.Attachments.{
  Key, Key-discrete, MessageKey-discrete, AttachmentCache, new_cache, remove_key, remove_keys,
  expire, get, shrink, put, store, returned, land, is_stale, finish, hit, coalesced, miss,
  get_or_load, prune_invalidated, record_invalidation, invalidate_message, deleted_since, first,
  load, end, invalidate, step, steps,
}
use discord_chat_bot.Attachments.Bytes.{IsSound, steps-IsSound}
use discord_chat_bot.Attachments.Stale.{finish_late}

program : Unit {0}
unfolding set remove move_to_end Key-discrete MessageKey-discrete remove_key remove_keys expire get
    shrink put store land is_stale finish get_or_load prune_invalidated record_invalidation
    invalidate_message deleted_since step steps lookup ℕ_discrete
program = tt

abbrev cat : Key
cat = ((1, 2), 3)

abbrev dog : Key
dog = ((1, 4), 5)

abbrev one_load : AttachmentCache
one_load =
    steps (new_cache 10 100)
      (load cat 0 1 ∷ end cat 0 (returned (some (codes "abcdef"))) 0 2 3 ∷ [])

hit_test : (get_or_load one_load cat 1 102).0 ≡ hit (codes "abcdef")
unfolding program
hit_test = refl

expired_test : (get_or_load one_load cat 1 103).0 ≡ miss 1 0
unfolding program
expired_test = refl

coalesced_test : (get_or_load (steps one_load (load dog 8 4 ∷ [])) dog 9 5).0 ≡ coalesced 8
unfolding program
coalesced_test = refl

evicted_test : map first (store one_load dog (codes "ghijk") 4 4).entries ≡ dog ∷ []
unfolding program
evicted_test = refl

deleted_test : deleted_since (invalidate_message one_load (1, 2) true 9) 0 1 (2 ∷ 4 ∷ []) ≡ 2 ∷ []
unfolding program
deleted_test = refl

steps-IsSound_example : IsSound (
    steps (new_cache 10 100) (
      load cat 0 1
      ∷ end cat 0 (returned (some (codes "abc"))) 0 2 3
      ∷ invalidate (1, 2) true 4
      ∷ []))
steps-IsSound_example =
    steps-IsSound 10 100 (
      load cat 0 1
      ∷ end cat 0 (returned (some (codes "abc"))) 0 2 3
      ∷ invalidate (1, 2) true 4
      ∷ [])

one_load-IsSound : IsSound one_load
one_load-IsSound =
    steps-IsSound 10 100 (load cat 0 1 ∷ end cat 0 (returned (some (codes "abcdef"))) 0 2 3 ∷ [])

finish_late_example :
    (finish
      (steps (invalidate_message one_load (1, 4) false 10) (invalidate (1, 2) true 20 ∷ []))
      dog
      7
      (returned (some (codes "late")))
      0
      21
      21).entries
    ≡ (steps (invalidate_message one_load (1, 4) false 10) (invalidate (1, 2) true 20 ∷ [])).entries
unfolding program
finish_late_example =
    finish_late one_load dog 0 10 false (invalidate (1, 2) true 20 ∷ []) (omega arith)
      ((omega arith, omega arith), tt) 7 21 21 (returned (some (codes "late")))
