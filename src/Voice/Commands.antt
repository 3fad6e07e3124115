-- ===== src/Voice/Commands.antt =====
-- core/classes/voice_policy.py: the requests that are handled without the model. `words` are those
-- of what was said after the wake phrase.
use discord_chat_bot.Prelude.{
  Bool, true, false, not, Option, none, some, List, [], ◌∷◌, any, filter, ite, if◌then◌else◌,
}
use discord_chat_bot.Text.{Text, codes, join, Text-discrete}

pub data Command : Type 0 where
  leave : Command
  stop : Command

abbrev pub filler : List Text
filler =
    codes "please"
    ∷ codes "now"
    ∷ codes "can"
    ∷ codes "could"
    ∷ codes "would"
    ∷ codes "you"
    ∷ codes "will"
    ∷ codes "just"
    ∷ codes "the"
    ∷ codes "this"
    ∷ codes "call"
    ∷ codes "channel"
    ∷ codes "voice"
    ∷ codes "chat"
    ∷ codes "vc"
    ∷ codes "ok"
    ∷ codes "okay"
    ∷ codes "right"
    ∷ codes "thanks"
    ∷ codes "thank"
    ∷ []

abbrev pub leave_commands : List Text
leave_commands =
    codes "leave"
    ∷ codes "go away"
    ∷ codes "go"
    ∷ codes "disconnect"
    ∷ codes "get out"
    ∷ codes "bye"
    ∷ codes "goodbye"
    ∷ codes "bye bye"
    ∷ codes "hang up"
    ∷ codes "go home"
    ∷ codes "log off"
    ∷ codes "leave us"
    ∷ []

abbrev pub stop_commands : List Text
stop_commands =
    codes "stop"
    ∷ codes "shut up"
    ∷ codes "be quiet"
    ∷ codes "quiet"
    ∷ codes "stop talking"
    ∷ codes "silence"
    ∷ codes "enough"
    ∷ codes "cancel"
    ∷ codes "hush"
    ∷ codes "shush"
    ∷ codes "nevermind"
    ∷ codes "never mind"
    ∷ codes "stop it"
    ∷ codes "stop stop"
    ∷ codes "that's enough"
    ∷ codes "thats enough"
    ∷ codes "pipe down"
    ∷ codes "zip it"
    ∷ []

unfoldable pub is_in : Text → List Text → Bool
is_in text texts = any (λ t. ite (Text-discrete text t) true false) texts

unfoldable pub parse_command : List Text → Option Command
unfolding is_in
parse_command words =
    let said = join (codes " ") (filter (λ w. not (is_in w filler)) words) in
    if is_in said leave_commands
    then some leave
    else if is_in said stop_commands
    then some stop
    else none
