-- ===== src/Ledger/Intake.antt =====
-- RunLedger.deliver: what becomes of one thread message, and the bound on the record.
pub mod Compact
pub mod Author
pub mod Deliver
pub mod Accept
use discord_chat_bot.Prelude.{
  ℕ, zero, suc, ◌+◌, ◌-◌, Bool, true, false, not, ◌&&◌, ◌||◌, Option, none, some, List, [], ◌∷◌,
  ◌++◌, ltb, leb, ◌==◌, if◌then◌else◌, length, any, all, map, sum, take,
}
use discord_chat_bot.Text.{Text, codes, is_empty, strip, split, join, or_else}
use discord_chat_bot.Ledger.{
  received, is_resolved, finalizing, closed, Delivery, accepted, duplicate, no_run, empty,
  attachment_only, too_long, full, finishing, ThreadEvent, OpenQuestion, RunLedger, same_id,
  is_unresolved, unaddressed, max_pending_messages, max_pending_chars, max_message_chars,
  max_retained_events, max_follow_ups, max_author_chars,
}

-- the characters that `_clean_author` blanks: [ ] : \n \r `
unfoldable pub is_framing : ℕ → Bool
is_framing c = c == b'[' || c == b']' || c == b':' || c == 10 || c == 13 || c == b'`'

unfoldable pub blank_framing : ℕ → ℕ
unfolding is_framing
blank_framing c = if is_framing c then 32 else c

abbrev pub someone : Text
someone = codes "someone"

unfoldable pub clean_author : Text → Text
unfolding blank_framing
clean_author name =
    take max_author_chars
      (or_else (join (32 ∷ []) (split (map blank_framing (or_else name someone)))) someone)

-- `int(x) if x else None`: neither None nor 0 is an id
abbrev pub real_id : Option ℕ → Option ℕ
real_id none = none
real_id (some zero) = none
real_id (some (suc n)) = some (suc n)

unfoldable pub seen_message : RunLedger → Option ℕ → Bool
seen_message l none = false
seen_message l (some id) =
    any (λ e. same_id e.message_id (some id)) l.events
    || any (λ e. same_id e.message_id (some id)) l.follow_ups

-- one message as a caller hands it over
pub record Message : Type 0 where
  pub message_id : Option ℕ
  pub author_id : Option ℕ
  pub author_name : Text
  pub text : Text
  pub reply_to : Option ℕ
  pub has_attachments : Bool

abbrev pub requester_wrote : RunLedger → Option ℕ → Bool
requester_wrote l none = false
requester_wrote l (some a) = same_id (some a) l.requester_id

unfoldable pub new_event : RunLedger → Message → ℕ → ThreadEvent
unfolding clean_author
new_event l m now = record {
  seq = 0;
  message_id = real_id m.message_id;
  author_id = m.author_id;
  author_name = clean_author m.author_name;
  text = strip m.text;
  is_requester = requester_wrote l m.author_id;
  received_at = now;
  reply_to = real_id m.reply_to;
  has_attachments = m.has_attachments;
  stage = received;
  outcome = none;
  reply = [];
  anchor = none;
  presented_at = none;
  addressed_at = none;
  gate_refusals = 0;
  last_refused_call = none;
  question_id = none;
}

-- the loop of `_compact`: the events kept, and how many were dropped
unfoldable pub compact_from : ℕ → List ThreadEvent → List ThreadEvent × ℕ
compact_from excess [] = ([], 0)
compact_from excess (e ∷ es) =
    let drops = ltb 0 excess && is_resolved e.stage in
    let (kept, dropped) = compact_from (if drops then excess - 1 else excess) es in
    if drops then (kept, dropped + 1) else (e ∷ kept, dropped)

unfoldable pub compact : RunLedger → RunLedger
unfolding compact_from
compact l =
    let excess = length l.events - max_retained_events in
    let (kept, dropped) = compact_from excess l.events in
    if excess == 0 then l else record l { events = kept; compacted = l.compacted + dropped }

-- the event may answer the open question: the requester wrote it, or it replies to the question
unfoldable pub candidate : Option OpenQuestion → ThreadEvent → Option ℕ
candidate none e = none
candidate (some q) e =
    if e.is_requester
      || (not (same_id (real_id q.message_id) none) && same_id e.reply_to q.message_id)
    then some q.qid
    else none

-- past every guard: the event takes the next number and joins the record
unfoldable pub accept : RunLedger → ThreadEvent → RunLedger
unfolding candidate
accept l event =
    let numbered : ThreadEvent = record event {
      seq = l.revision + 1;
      question_id = candidate l.question event;
    } in
    let grown : RunLedger = record l {
      revision = l.revision + 1;
      events = l.events ++ numbered ∷ [];
    } in
    let bounded = compact grown in record bounded { changed = true }

unfoldable pub chars : List ThreadEvent → ℕ
chars es = sum (map (λ e. length e.text) es)

-- the part of `deliver` for a message that came in time
unfoldable pub deliver_open : RunLedger → ThreadEvent → Delivery × RunLedger
unfolding chars accept is_unresolved
deliver_open l event =
    let pending = unaddressed l in
    if leb max_pending_messages (length pending)
    then (full, l)
    else if ltb max_pending_chars (chars pending + length event.text)
    then (full, l)
    else if leb max_retained_events (length l.events) && all is_unresolved l.events
    then (full, l)
    else (accepted, accept l event)

-- the part for a message that came after the finalization boundary
unfoldable pub deliver_late : RunLedger → ThreadEvent → Delivery × RunLedger
deliver_late l event =
    if leb max_follow_ups (length l.follow_ups)
    then (full, l)
    else (finishing, record l { follow_ups = l.follow_ups ++ event ∷ [] })

-- `text` is the message's text without the space around it
unfoldable pub deliver_text : RunLedger → Message → ℕ → Delivery × RunLedger
unfolding deliver_open deliver_late new_event
deliver_text l m now =
    if is_empty (strip m.text)
    then (if m.has_attachments then attachment_only else empty, l)
    else if ltb max_message_chars (length (strip m.text))
    then (too_long, l)
    else elim l.state [
      | finalizing ↦ deliver_late l (new_event l m now)
      | _ ↦ deliver_open l (new_event l m now)
    ]

unfoldable pub deliver : RunLedger → Message → ℕ → Delivery × RunLedger
unfolding deliver_text seen_message
deliver l m now = elim l.state [
  | closed ↦ (no_run, l)
  | _ ↦ if seen_message l (real_id m.message_id) then (duplicate, l) else deliver_text l m now
]
