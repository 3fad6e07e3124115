-- ===== src/History/Store.antt =====
-- HistoryStore of history_policy.py: a bounded store, least recently used first out, whose
-- anchors only move forward.
use discord_chat_bot.Prelude.{
  ◌≤◌, ◌<◌, ◌≡◌, ◌≢◌, ◌↔◌, inl, inr, refl, ◌∙◌, true, false, Option, none, some, List, [], ◌∷◌,
  lookup, ite, length, Option-cases, arith,
}
use discord_chat_bot.Dict.{remove, set, move_to_end, IsUnique}
use discord_chat_bot.Dict.Laws.{
  move_to_end-some, length-move_to_end, lookup-remove, lookup-set, lookup-move_to_end, set-IsUnique,
  move_to_end-IsUnique,
}
use discord_chat_bot.Dict.Evict.{lookup-evict-push, length-evict, lookup-evict, evict-IsUnique}
use discord_chat_bot.History.{AnchorState, HistoryStore, get, put_newest, commit}

module _ {K : Type 0} (dec : Discrete K) where
  pub record IsValid (s : HistoryStore K) : Type 0 where
    pub unique : IsUnique dec s.states
    pub bounded : length s.states ≤ s.max_channels

  abbrev pub anchor : HistoryStore K → K → Option AnchorState
  anchor s key = lookup dec key s.states

  put_newest-IsValid :
      (s : HistoryStore K) (key : K) (a : AnchorState)
      → IsValid s
      → IsValid (put_newest dec s key a)
  unfolding put_newest
  put_newest-IsValid s key a v =
      let d = set dec key a s.states in
      record {
        unique =
            evict-IsUnique dec s.max_channels (move_to_end dec key d)
              (move_to_end-IsUnique dec key d (set-IsUnique dec key a s.states v.unique));
        bounded = omega (arith, length-evict s.max_channels (move_to_end dec key d));
      }

  -- Every commit, stored or refused, keeps keys unique and the store within its bound.
  pub commit-IsValid :
      (s : HistoryStore K) (key : K) (a : AnchorState) → IsValid s → IsValid (commit dec s key a).1
  unfolding commit
  commit-IsValid s key a v = ground (arith, put_newest-IsValid s key a v)

  -- After a put the key has the new anchor, if it is there, and every other key the old one.
  anchor-put_newest :
      (s : HistoryStore K) (key j : K) (a b : AnchorState)
      → IsValid s
      → anchor (put_newest dec s key a) j ≡ some b
      → ite (dec j key) (some a) (anchor s j) ≡ some b
  unfolding put_newest
  anchor-put_newest s key j a b v h =
      let d = set dec key a s.states in
      ground (
        arith,
        lookup-evict dec s.max_channels (move_to_end dec key d) j b
            (move_to_end-IsUnique dec key d (set-IsUnique dec key a s.states v.unique)) h,
        lookup-move_to_end dec key j d,
        lookup-set dec key j a s.states,
      )

  -- An anchor never moves backwards: a channel that has one before and after a commit, of
  -- whichever channel, has a refresh trigger that is no older.
  pub commit-forward :
      (s : HistoryStore K) (key j : K) (a before after : AnchorState)
      → IsValid s
      → anchor s j ≡ some before
      → anchor (commit dec s key a).1 j ≡ some after
      → before.refresh_trigger_id ≤ after.refresh_trigger_id
  unfolding commit
  commit-forward s key j a before after v hb ha =
      ground (arith, anchor-put_newest s key j a after v)

  -- A commit is refused exactly when the channel's anchor is as new, and then changes nothing.
  pub commit-refused :
      (s : HistoryStore K) (key : K) (a : AnchorState)
      → ((commit dec s key a).0 ≡ false) ↔ (
          (b : AnchorState) × (anchor s key ≡ some b)
          × (a.refresh_trigger_id ≤ b.refresh_trigger_id)
          × ((commit dec s key a).1 ≡ s))
  unfolding commit
  commit-refused s key a = elim (Option-cases (anchor s key)) [
    | inl e ↦ (λ h. absurd (ground arith), λ h. ground arith)
    | inr (b, e) ↦ (λ h. (b, e, ground arith, ground arith), λ h. ground arith)
  ]

  -- A commit that is stored can be read back at once, if the store has room for any channel.
  pub commit-stored :
      (s : HistoryStore K) (key : K) (a : AnchorState)
      → 0 < s.max_channels
      → (commit dec s key a).0 ≡ true
      → anchor (commit dec s key a).1 key ≡ some a
  unfolding commit put_newest
  commit-stored s key a room h =
      let d = set dec key a s.states in
      let e : lookup dec key d ≡ some a = ground (arith, lookup-set dec key key a s.states) in
      let n : lookup dec key (remove dec key d) ≡ none =
        ground (arith, lookup-remove dec key key d) in
      ground (
        arith,
        move_to_end-some dec key d a e,
        lookup-evict-push dec s.max_channels (remove dec key d) key a room n,
      )

  -- A read returns the channel's anchor, changes no anchor, and keeps the store well formed.
  pub get_lem :
      (s : HistoryStore K) (key j : K)
      → ((get dec s key).0 ≡ anchor s key) × (anchor (get dec s key).1 j ≡ anchor s j)
  unfolding get
  get_lem s key j = ground (arith, lookup-move_to_end dec key j s.states)

  get-IsValid : (s : HistoryStore K) (key : K) → IsValid s → IsValid (get dec s key).1
  unfolding get
  get-IsValid s key v = ground (
    arith,
    move_to_end-IsUnique dec key s.states v.unique,
    length-move_to_end dec key s.states v.unique,
  )

-- What the workers do with the store, in the order in which they do it.
pub data Operation (K : Type 0) : Type 0 where
  read : K → Operation K
  write : K → AnchorState → Operation K

module _ {K : Type 0} (dec : Discrete K) where
  unfoldable pub apply : HistoryStore K → Operation K → HistoryStore K
  apply s (read key) = (get dec s key).1
  apply s (write key a) = (commit dec s key a).1

  unfoldable pub run : HistoryStore K → List (Operation K) → HistoryStore K
  unfolding apply
  run s [] = s
  run s (o ∷ os) = run (apply s o) os

  -- the channel is in the store after each of the operations, so it was never evicted
  abbrev pub Stays : K → HistoryStore K → List (Operation K) → Type 0
  Stays j s [] = Unit
  Stays j s (o ∷ os) = (anchor dec (apply s o) j ≢ none) × Stays j (apply s o) os

  apply-IsValid : (s : HistoryStore K) (o : Operation K) → IsValid dec s → IsValid dec (apply s o)
  unfolding apply
  apply-IsValid s (read key) v = get-IsValid dec s key v
  apply-IsValid s (write key a) v = commit-IsValid dec s key a v

  max_channels-apply :
      (s : HistoryStore K) (o : Operation K) → (apply s o).max_channels ≡ s.max_channels
  unfolding apply get commit put_newest
  max_channels-apply s (read key) = ground arith
  max_channels-apply s (write key a) = ground arith

  apply-forward :
      (s : HistoryStore K) (o : Operation K) (j : K) (before after : AnchorState)
      → IsValid dec s
      → anchor dec s j ≡ some before
      → anchor dec (apply s o) j ≡ some after
      → before.refresh_trigger_id ≤ after.refresh_trigger_id
  unfolding apply
  apply-forward s (read key) j before after v hb ha = ground (arith, get_lem dec s key j)
  apply-forward s (write key a) j before after v hb ha =
      commit-forward dec s key j a before after v hb ha

  -- Over any interleaving of reads and commits, whatever their triggers, the anchor of a channel
  -- that is never evicted meanwhile does not move backwards.
  pub run-forward :
      (s : HistoryStore K) (os : List (Operation K)) (j : K) (before after : AnchorState)
      → IsValid dec s
      → Stays j s os
      → anchor dec s j ≡ some before
      → anchor dec (run s os) j ≡ some after
      → before.refresh_trigger_id ≤ after.refresh_trigger_id
  unfolding run
  run-forward s [] j before after v st hb ha = ground arith
  run-forward s (o ∷ os) j before after v st hb ha =
      elim (Option-cases (anchor dec (apply s o) j)) [
        | inl e ↦ absurd (st.0 e)
        | inr (mid, e) ↦ omega (
          arith,
          apply-forward s o j before mid v hb e,
          run-forward (apply s o) os j mid after (apply-IsValid s o v) st.1 e ha,
        )
      ]

  run-IsValid :
      (s : HistoryStore K) (os : List (Operation K)) → IsValid dec s → IsValid dec (run s os)
  unfolding run
  run-IsValid s [] v = v
  run-IsValid s (o ∷ os) v = run-IsValid (apply s o) os (apply-IsValid s o v)

  max_channels-run :
      (s : HistoryStore K) (os : List (Operation K)) → (run s os).max_channels ≡ s.max_channels
  unfolding run
  max_channels-run s [] = refl
  max_channels-run s (o ∷ os) = max_channels-run (apply s o) os ∙ max_channels-apply s o

  -- No sequence of operations lets the store outgrow its bound.
  pub run-bounded :
      (s : HistoryStore K) (os : List (Operation K))
      → IsValid dec s
      → length (run s os).states ≤ s.max_channels
  unfolding run
  run-bounded s os v = omega (arith, (run-IsValid s os v).bounded, max_channels-run s os)
