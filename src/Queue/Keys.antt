-- ===== src/Queue/Keys.antt =====
-- A dictionary's keys and the list of their order, as core/classes/message_queue.py keeps both.
use discord_chat_bot.Prelude.{◌≡◌, refl, none, List, [], ◌∷◌, ◌++◌, lookup, arith}
use discord_chat_bot.Dict.{Dict, set, remove, IsUnique}
use discord_chat_bot.Dict.Laws.{remove_absent}
use discord_chat_bot.Text.{Text, Text-discrete}
use discord_chat_bot.Queue.{remove_first}

module _ {V : Type 0} where
  abbrev pub keys : Dict Text V → List Text
  keys [] = []
  keys ((k, v) ∷ d) = k ∷ keys d

  pub keys-set :
      (k : Text) (v : V) (d : Dict Text V)
      → lookup Text-discrete k d ≡ none
      → keys (set Text-discrete k v d) ≡ keys d ++ k ∷ []
  unfolding lookup set
  keys-set k v [] h = refl
  keys-set k v ((j, w) ∷ d) h = ground (arith, keys-set k v d)

  pub keys-remove :
      (k : Text) (d : Dict Text V)
      → IsUnique Text-discrete d
      → keys (remove Text-discrete k d) ≡ remove_first k (keys d)
  unfolding lookup remove remove_first
  keys-remove k [] u = refl
  keys-remove k ((j, w) ∷ d) u =
      ground (arith, keys-remove k d u.1, remove_absent Text-discrete k d)

  pub remove-set_new :
      (k : Text) (v : V) (d : Dict Text V)
      → lookup Text-discrete k d ≡ none
      → remove Text-discrete k (set Text-discrete k v d) ≡ d
  unfolding lookup remove set
  remove-set_new k v [] h = ground arith
  remove-set_new k v ((j, w) ∷ d) h = ground (arith, remove-set_new k v d)
