-- ===== src/Runner/Expected.antt =====
-- The result that a job's run is to record, apart from the order in which `execute` checks.
use discord_chat_bot.Prelude.{
  ◌≡◌, refl, inl, inr, Bool, true, false, not, ◌&&◌, ◌||◌, Option, none, some, List, if◌then◌else◌,
  all, Bool-cases, arith,
}
use discord_chat_bot.Text.{Text, codes}
use discord_chat_bot.Runner.{
  Looked, found, absent, denied, raised, Perms, may_send, World, Trouble, access_lost, failure,
  Raised, bot_lost, member_lost, channel_lost, access, outcome_of,
}

abbrev is_denied : Looked → Bool
is_denied absent = true
is_denied denied = true
is_denied _ = false

abbrev is_found : Looked → Bool
is_found found = true
is_found _ = false

abbrev is_raised : Looked → Bool
is_raised raised = true
is_raised _ = false

abbrev is_barred : Option Perms → Bool
is_barred none = false
is_barred (some p) = not p.view_channel || not p.send_messages

-- The channel or the editor is gone or out of the bot's sight, the server is gone, or the editor or
-- the bot, if the server says which, may not see the channel and send to it.
abbrev pub is_lost : World → Bool
is_lost w =
    is_denied w.channel
    || (is_found w.channel
        && (not w.in_guild
            || (is_denied w.member
                || (is_found w.member && (is_barred (some w.actor) || is_barred w.bot)))))

-- the look at the channel, or behind it at the editor, raises another exception
abbrev pub is_unclear : World → Bool
is_unclear w = is_raised w.channel || (is_found w.channel && (w.in_guild && is_raised w.member))

abbrev pub answer_result : (Text → Bool) → Option (List Text) → Text
answer_result takes none = codes "failed"
answer_result takes (some messages) =
    if all takes messages then codes "completed" else codes "uncertain_delivery"

-- the result that a run comes to whose records could all be read
unfoldable pub expected : World → Text
expected w =
    if is_lost w
    then codes "suspended"
    else if is_unclear w
    then codes "failed"
    else answer_result w.takes w.answer

abbrev pub refused_result : Trouble → Text
refused_result access_lost = codes "suspended"
refused_result failure = codes "failed"

abbrev pub expected_from : World → Option Raised → Text
expected_from w (some r) = refused_result r.trouble
expected_from w none = answer_result w.takes w.answer

-- the checks, as they are made, find what is lost or unclear
expected-bot :
    (w : World) (bot : Option Perms)
    → expected_from w (bot_lost bot)
      ≡ (if is_barred bot then codes "suspended" else answer_result w.takes w.answer)
expected-bot w none = refl
expected-bot w (some p) = ground arith

module _ (w : World) where
  expected_member :
      (m : Looked) (actor : Perms) (bot : Option Perms)
      → expected_from w (member_lost m actor bot) ≡ (
          if is_denied m || (is_found m && (is_barred (some actor) || is_barred bot))
          then codes "suspended"
          else if is_raised m
          then codes "failed"
          else answer_result w.takes w.answer)
  expected_member absent actor bot = refl
  expected_member denied actor bot = refl
  expected_member raised actor bot = refl
  expected_member found actor bot = ground (arith, expected-bot w bot)

  expected_channel :
      (c : Looked) (guild : Bool)
      → expected_from w (channel_lost c guild w.member w.actor w.bot)
        ≡ expected (record w { channel = c; in_guild = guild })
  unfolding expected
  expected_channel absent guild = refl
  expected_channel denied guild = refl
  expected_channel raised guild = refl
  expected_channel found false = refl
  expected_channel found true = expected_member w.member w.actor w.bot

  pub expected-access : expected_from w (access w) ≡ expected w
  unfolding access
  expected-access = expected_channel w.channel w.in_guild

-- the checks come before the sending
unfoldable pub IsBefore : Option Raised → Type 0
IsBefore none = Unit
IsBefore (some r) = r.send_started ≡ false

bot_lost-IsBefore : (bot : Option Perms) → IsBefore (bot_lost bot)
unfolding IsBefore
bot_lost-IsBefore none = tt
bot_lost-IsBefore (some p) = elim (Bool-cases (may_send p)) [ inl e ↦ rw e tt | inr e ↦ rw e refl ]

member_lost-IsBefore :
    (m : Looked) (actor : Perms) (bot : Option Perms) → IsBefore (member_lost m actor bot)
unfolding IsBefore
member_lost-IsBefore absent actor bot = refl
member_lost-IsBefore denied actor bot = refl
member_lost-IsBefore raised actor bot = refl
member_lost-IsBefore found actor bot = elim (Bool-cases (may_send actor)) [
  | inl e ↦ rw e (bot_lost-IsBefore bot)
  | inr e ↦ rw e refl
]

channel_lost-IsBefore :
    (c : Looked) (guild : Bool) (m : Looked) (actor : Perms) (bot : Option Perms)
    → IsBefore (channel_lost c guild m actor bot)
unfolding IsBefore
channel_lost-IsBefore absent guild m actor bot = refl
channel_lost-IsBefore denied guild m actor bot = refl
channel_lost-IsBefore raised guild m actor bot = refl
channel_lost-IsBefore found false m actor bot = refl
channel_lost-IsBefore found true m actor bot = member_lost-IsBefore m actor bot

pub access-IsBefore : (w : World) → IsBefore (access w)
unfolding access
access-IsBefore w = channel_lost-IsBefore w.channel w.in_guild w.member w.actor w.bot

pub outcome_of-refused : (t : Trouble) → outcome_of t false ≡ refused_result t
outcome_of-refused access_lost = refl
outcome_of-refused failure = refl
