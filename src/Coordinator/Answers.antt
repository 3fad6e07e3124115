-- ===== src/Coordinator/Answers.antt =====
-- What becomes of the model's answers to thread messages, and when a run may finish.
use discord_chat_bot.Prelude.{
  ℕ, ◌≡◌, ◌⊎◌, ◌↔◌, inl, inr, refl, sym, ◌∙◌, Bool, true, false, any, arith, Option, none, some,
  List, [], ◌∷◌, ◌++◌, take, Bool-cases, Option-cases,
}
use discord_chat_bot.Text.{Text, strip, or_else}
use discord_chat_bot.Ledger.{Decision, ThreadEvent, RunLedger, unaddressed}
use discord_chat_bot.Ledger.Stages.{record_decision}
use discord_chat_bot.Coordinator.{Coordinator}
use discord_chat_bot.Coordinator.Words.{
  RawIds, parse_ids, normalize_decision, has_mark, generic_reply,
}
use discord_chat_bot.Coordinator.Replies.{
  Thread, Told, with_mark, reply_of, try_send, post, tell, respond_as, respond, ids_or_open,
  continuation_nudge, mixes_files, Deliverable, unanswered_part, text_of_parts, old_files,
  new_files, files_part,
}

-- one of the two attempts to send a reply's first 1900 characters to the thread succeeds
unfoldable pub is_sent : Option Thread → Text → Bool
is_sent none text = false
is_sent (some sends) text = any (sends (take 1900 text)) (0 ∷ 1 ∷ [])

abbrev kept : Coordinator → Text → Coordinator
kept c text = record c { unsent_replies = c.unsent_replies ++ text ∷ [] }

-- A reply was sent, or it is kept for the closing message of the conversation as it is by then.
unfoldable pub IsDelivered : Option Thread → Coordinator → Told → Text → Type 0
IsDelivered thread c told text =
    ((is_sent thread text ≡ true) × (told.posted ≡ some (take 1900 text)) × (told.after ≡ c))
    ⊎ ((is_sent thread text ≡ false) × (told.posted ≡ none) × (told.after ≡ kept c text))

-- what is told of a decision on the events, in the state that has it recorded
unfoldable pub IsAnswered :
    Option Thread
    → (Coordinator → Coordinator)
    → Coordinator
    → Told
    → Decision
    → Text
    → List ThreadEvent
    → Type 0
IsAnswered thread meanwhile c told d reply [] = (told.posted ≡ none) × (told.after ≡ c)
IsAnswered thread meanwhile c told d reply (e ∷ es) =
    (has_mark (reply_of d reply (e ∷ es)) ≡ true)
    × IsDelivered thread (meanwhile c) told (reply_of d reply (e ∷ es))

post_lem : (thread : Option Thread) (text : Text) → post thread text ≡ is_sent thread text
unfolding post try_send is_sent
post_lem none text = refl
post_lem (some sends) text = ground arith

has_mark-with_mark : (s : Text) → has_mark (with_mark s) ≡ true
unfolding with_mark
has_mark-with_mark s = elim (Bool-cases (has_mark s)) [ inl h ↦ rw (h, h) refl | inr h ↦ rw h refl ]

marked :
    (d : Decision) (reply : Text) (es : List ThreadEvent) → has_mark (reply_of d reply es) ≡ true
unfolding reply_of
marked d reply es = has_mark-with_mark (or_else (strip reply) (generic_reply d es))

module _ (thread : Option Thread) (meanwhile : Coordinator → Coordinator) where
  tell-IsAnswered :
      (d : Decision) (reply : Text) (es : List ThreadEvent) (unknown : List ℕ) (c : Coordinator)
      → IsAnswered thread meanwhile c (tell thread meanwhile d reply es unknown c) d reply es
  unfolding tell IsAnswered IsDelivered
  tell-IsAnswered d reply [] unknown c = (refl, refl)
  tell-IsAnswered d reply (e ∷ es) unknown c =
      let text = reply_of d reply (e ∷ es) in
      elim (Bool-cases (post thread text)) [
        | inl h ↦ rw h (marked d reply (e ∷ es), inl (sym (post_lem thread text) ∙ h, refl, refl))
        | inr h ↦ rw h (marked d reply (e ∷ es), inr (sym (post_lem thread text) ∙ h, refl, refl))
      ]

  module _ (lower repr : Text → Text) (c : Coordinator) (ids : RawIds) (decision reply : Text)
      (now : ℕ) where
    respond-decided :
        (d : Decision)
        → normalize_decision lower decision ≡ some d
        → respond lower repr thread meanwhile c ids decision reply now
          ≡ respond_as thread meanwhile c
              (ids_or_open (parse_ids ids) d c.ledger.events)
              d
              reply
              now
    unfolding respond
    respond-decided d h = rw (respond, h) refl

    -- A decision on numbers is recorded in the ledger before anything is sent. If it changed no
    -- event, nothing is posted and that is all. Else the reply to the people is marked as the bot's,
    -- and, whatever happens to the conversation while it is sent, it counts as posted exactly if one
    -- of two attempts to send it succeeds, and otherwise is added to what the closing message has.
    pub respond-IsAnswered :
        (d : Decision) (n : ℕ) (ns : List ℕ)
        → normalize_decision lower decision ≡ some d
        → ids_or_open (parse_ids ids) d c.ledger.events ≡ n ∷ ns
        → IsAnswered thread meanwhile
            (record c { ledger = (record_decision c.ledger (n ∷ ns) d (strip reply) now).2 })
            (respond lower repr thread meanwhile c ids decision reply now)
            d
            reply
            (record_decision c.ledger (n ∷ ns) d (strip reply) now).0
    unfolding respond_as
    respond-IsAnswered d n ns h k =
        rw (respond-decided d h, k)
          (tell-IsAnswered d reply recorded.0 recorded.1 (record c { ledger = recorded.2 }))
      where
        recorded : List ThreadEvent × List ℕ × RunLedger
        recorded = record_decision c.ledger (n ∷ ns) d (strip reply) now

    -- A reply that is not understood, or that finds nothing to answer, leaves everything as it is.
    pub respond-unread :
        ((d : Decision)
          → normalize_decision lower decision ≡ some d
          → ids_or_open (parse_ids ids) d c.ledger.events ≡ [])
        → ((respond lower repr thread meanwhile c ids decision reply now).after ≡ c)
          × ((respond lower repr thread meanwhile c ids decision reply now).posted ≡ none)
    unfolding respond respond_as
    respond-unread h = elim (Option-cases (normalize_decision lower decision)) [
      | inl e ↦ rw (respond, e) (refl, refl)
      | inr (d, e) ↦ rw (respond-decided d e, h d e) (refl, refl)
    ]

some_part : (ps : List Text) (p : Text) → (t : Text) × (text_of_parts (ps ++ p ∷ []) ≡ some t)
some_part [] p = (_, refl)
some_part (q ∷ ps) p = (_, refl)

no_parts : (es : List ThreadEvent) → text_of_parts (unanswered_part es) ≡ none → es ≡ []
no_parts [] h = refl
no_parts (e ∷ es) h = cc h

mixes_files-nudged :
    (c : Coordinator) (ds : List Deliverable)
    → mixes_files (record c { nudged_files = true }) ds ≡ false
unfolding mixes_files
mixes_files-nudged c ds = refl

abbrev mixed_files : Coordinator → List Deliverable → Text
mixed_files c ds =
    let rev = c.ledger.change_revision in files_part (old_files rev ds) (new_files rev ds)

-- the run may finish: nothing waits, and no file from before a change goes out with one from after
pub continuation_nudge-none :
    (c : Coordinator) (ds : List Deliverable)
    → ((continuation_nudge c ds).0 ≡ none)
      ↔ ((unaddressed c.ledger ≡ []) × (mixes_files c ds ≡ false))
unfolding continuation_nudge
continuation_nudge-none c ds = elim (Bool-cases (mixes_files c ds)) [
  | inl m ↦ rw m (
    λ h. cc ((some_part (unanswered_part (unaddressed c.ledger)) (mixed_files c ds)).1, h),
    λ h. cc h.1,
  )
  | inr m ↦ rw m (λ h. (no_parts (unaddressed c.ledger) h, refl), λ h. rw h.0 refl)
]

-- the files are spoken of once
pub continuation_nudge-once :
    (c : Coordinator) (ds es : List Deliverable)
    → mixes_files c ds ≡ true
    → mixes_files (continuation_nudge c ds).1 es ≡ false
unfolding continuation_nudge
continuation_nudge-once c ds es h = rw h (mixes_files-nudged c es)
