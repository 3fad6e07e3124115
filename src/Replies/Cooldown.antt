-- ===== src/Replies/Cooldown.antt =====
-- The cooldown of core/classes/reply_policy.py over the replies of one channel.
use discord_chat_bot.Prelude.{
  ℕ, ◌-◌, ◌≤◌, ◌<◌, ◌≡◌, ◌↔◌, inl, inr, refl, true, none, some, List, zero, suc, ◌==◌, lookup,
  ℕ_discrete, Option-cases, arith,
}
use discord_chat_bot.Dict.{remove}
use discord_chat_bot.Dict.Laws.{lookup-set, lookup-remove, move_to_end-some}
use discord_chat_bot.Dict.Evict.{lookup-evict-push}
use discord_chat_bot.Replies.{
  ReplyPolicy, set_default, touch, count_of, available, started_pair, sent_single,
}

abbrev pub count : ReplyPolicy → ℕ → ℕ
count p channel = count_of (lookup ℕ_discrete channel p.remaining)

lookup-set_default :
    (k : ℕ) (d : List (ℕ × ℕ))
    → lookup ℕ_discrete k (set_default k d) ≡ some (count_of (lookup ℕ_discrete k d))
unfolding set_default
lookup-set_default k d = elim (Option-cases (lookup ℕ_discrete k d)) [
  | inl e ↦ rw (e, set_default) (ground (arith, lookup-set ℕ_discrete k k 0 d))
  | inr (n, e) ↦ rw (e, set_default) e
]

-- Touching a channel keeps its count, where the policy has room for a channel.
lookup-touch :
    (p : ReplyPolicy) (channel : ℕ)
    → 0 < p.max_channels
    → lookup ℕ_discrete channel (touch p channel).remaining ≡ some (count p channel)
unfolding touch
lookup-touch p channel h =
    let d = set_default channel p.remaining in
    let n = count p channel in
    let absent : lookup ℕ_discrete channel (remove ℕ_discrete channel d) ≡ none =
      ground (arith, lookup-remove ℕ_discrete channel channel d) in
    rw (move_to_end-some ℕ_discrete channel d n (lookup-set_default channel p.remaining))
      (lookup-evict-push ℕ_discrete p.max_channels (remove ℕ_discrete channel d) channel n h absent)

module _ (p : ReplyPolicy) (channel : ℕ) (h : 0 < p.max_channels) where
  count-started_pair : (cooldown : ℕ) → count (started_pair p cooldown channel) channel ≡ cooldown
  unfolding started_pair
  count-started_pair cooldown =
      ground (arith, lookup-set ℕ_discrete channel channel cooldown (touch p channel).remaining)

  count-sent_single : count (sent_single p channel) channel ≡ count p channel - 1
  unfolding sent_single
  count-sent_single = ground (
    arith,
    lookup-touch p channel h,
    lookup-set ℕ_discrete channel channel
        (count_of (lookup ℕ_discrete channel (touch p channel).remaining) - 1)
        (touch p channel).remaining,
  )

  available_lem : (available p channel).0 ≡ (count p channel == 0)
  unfolding available
  available_lem = rw (lookup-touch p channel h) refl

-- `n` single replies in the channel
abbrev pub singles : ℕ → ReplyPolicy → ℕ → ReplyPolicy
singles zero p channel = p
singles (suc n) p channel = singles n (sent_single p channel) channel

count-singles :
    (n : ℕ) (p : ReplyPolicy) (channel : ℕ)
    → 0 < p.max_channels
    → (count (singles n p channel) channel ≡ count p channel - n)
      × ((singles n p channel).max_channels ≡ p.max_channels)
unfolding sent_single touch
count-singles zero p channel h = (omega arith, refl)
count-singles (suc n) p channel h =
    let rest = count-singles n (sent_single p channel) channel h in
    (omega (arith, rest.0, count-sent_single p channel h), rest.1)

-- After a pair, a channel may send the next one exactly when at least as many single replies as the
-- cooldown were sent in it, if the policy has room for a channel.
pub available-singles :
    (p : ReplyPolicy) (cooldown n channel : ℕ)
    → 0 < p.max_channels
    → ((available (singles n (started_pair p cooldown channel) channel) channel).0 ≡ true)
      ↔ (cooldown ≤ n)
unfolding started_pair touch
available-singles p cooldown n channel h =
    let q = started_pair p cooldown channel in
    let rest = count-singles n q channel h in
    let free = available_lem (singles n q channel) channel (omega (arith, rest.1, h)) in
    ground (arith, rest.0, free, count-started_pair p channel h cooldown)
