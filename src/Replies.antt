-- ===== src/Replies.antt =====
-- core/classes/reply_policy.py: when a reply may be sent as two messages. Only the cooldown of each
-- channel is state. `cooldown` is the setting that `cooldown_replies` reads.
pub mod Cooldown
use discord_chat_bot.Prelude.{
  ℕ, ◌-◌, Bool, ◌&&◌, Option, none, some, List, [], ◌==◌, lookup, ℕ_discrete,
}
use discord_chat_bot.Dict.{set, move_to_end, evict}

pub record ReplyPolicy : Type 0 where
  pub remaining : List (ℕ × ℕ)
  pub max_channels : ℕ

abbrev pub new_policy : ℕ → ReplyPolicy
new_policy max_channels = record { remaining = []; max_channels = max_channels }

-- `d.setdefault(k, 0)`
unfoldable pub set_default : ℕ → List (ℕ × ℕ) → List (ℕ × ℕ)
set_default k d = elim (lookup ℕ_discrete k d) [ none ↦ set ℕ_discrete k 0 d | some n ↦ d ]

unfoldable pub touch : ReplyPolicy → ℕ → ReplyPolicy
unfolding set_default
touch p channel = record p {
  remaining =
      evict p.max_channels (move_to_end ℕ_discrete channel (set_default channel p.remaining));
}

-- the channel's count, once it is touched
abbrev pub count_of : Option ℕ → ℕ
count_of none = 0
count_of (some n) = n

unfoldable pub available : ReplyPolicy → ℕ → Bool × ReplyPolicy
unfolding touch
available p channel =
    let q = touch p channel in (count_of (lookup ℕ_discrete channel q.remaining) == 0, q)

-- `random.random() < double_reply_chance()` is `lucky`, which is asked for only after a yes
unfoldable pub eligible : ReplyPolicy → ℕ → Bool → Bool × ReplyPolicy
unfolding available
eligible p channel lucky = let (free, q) = available p channel in (free && lucky, q)

unfoldable pub started_pair : ReplyPolicy → ℕ → ℕ → ReplyPolicy
unfolding touch
started_pair p cooldown channel =
    let q = touch p channel in record q { remaining = set ℕ_discrete channel cooldown q.remaining }

unfoldable pub sent_single : ReplyPolicy → ℕ → ReplyPolicy
unfolding touch
sent_single p channel =
    let q = touch p channel in
    record q {
      remaining =
          set ℕ_discrete channel (count_of (lookup ℕ_discrete channel q.remaining) - 1) q.remaining;
    }
