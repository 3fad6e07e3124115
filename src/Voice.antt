-- ===== src/Voice.antt =====
-- core/classes/voice_policy.py: the window of a voice call's conversation.
pub mod Window
pub mod Sound
pub mod Wake
pub mod Commands
use discord_chat_bot.Prelude.{
  ℕ, ◌+◌, ◌-◌, Bool, true, false, List, [], ◌∷◌, ◌++◌, zero, suc, leb, ◌==◌, if◌then◌else◌, ite,
}
use discord_chat_bot.Text.{Text, codes, Text-discrete}

pub record VoiceMessage : Type 0 where
  pub role : Text
  pub content : Text

abbrev pub utterance_message : Text → Text → VoiceMessage
utterance_message name text = record {
  role = codes "user";
  content = codes "[" ++ (name ++ (codes "]: " ++ text));
}

pub record VoiceHistory : Type 0 where
  pub limit : ℕ
  pub refresh : ℕ
  pub items : List VoiceMessage
  pub rebases : ℕ

abbrev pub new_history : ℕ → ℕ → VoiceHistory
new_history limit refresh = record { limit = limit; refresh = refresh; items = []; rebases = 0 }

unfoldable pub is_user : VoiceMessage → Bool
is_user m = ite (Text-discrete m.role (codes "user")) true false

-- `len(user_indexes)`
unfoldable pub users : List VoiceMessage → ℕ
unfolding is_user
users [] = 0
users (m ∷ ms) = if is_user m then suc (users ms) else users ms

-- the messages from the user's message with the index `n` on, counted from 0
unfoldable pub from_user : ℕ → List VoiceMessage → List VoiceMessage
unfolding is_user
from_user n [] = []
from_user zero (m ∷ ms) = let rest = from_user zero ms in if is_user m then m ∷ ms else rest
from_user (suc n) (m ∷ ms) =
    let fewer = from_user n ms in
    let rest = from_user (suc n) ms in if is_user m then fewer else rest

-- the place of `user_indexes[-limit]`; at 0 that is the first
abbrev pub first_kept : ℕ → ℕ → ℕ
first_kept limit count = if limit == 0 then 0 else count - limit

unfoldable pub add : VoiceHistory → VoiceMessage → Bool × VoiceHistory
unfolding users from_user
add h m =
    let items = h.items ++ m ∷ [] in
    let count = users items in
    if leb count (h.limit + h.refresh) then (false, record h { items = items }) else (
      true,
      record h { items = from_user (first_kept h.limit count) items; rebases = h.rebases + 1 },
    )
