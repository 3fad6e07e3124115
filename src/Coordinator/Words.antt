-- ===== src/Coordinator/Words.antt =====
-- core/classes/sandbox_conversation.py: what the model writes, read, and what it is shown, written.
use discord_chat_bot.Prelude.{
  ℕ, ◌+◌, ◌-◌, ◌*◌, Bool, false, not, ◌&&◌, Option, none, some, List, [], ◌∷◌, ◌++◌, leb, ◌==◌,
  if◌then◌else◌, take, any, map, lookup,
}
use discord_chat_bot.Text.{Text, codes, strip, split, join, Text-discrete}
use discord_chat_bot.Text.Number.{show}
use discord_chat_bot.Ledger.{
  Decision, will_apply, done, answered, noted, declined, superseded, deferred, ThreadEvent,
  RunLedger, same_id,
}

-- What the model gives as ids: nothing, a text, or a list of them, each as its text.
pub data RawIds : Type 0 where
  missing : RawIds
  one : Text → RawIds
  several : List Text → RawIds

abbrev pub is_digit : ℕ → Bool
is_digit c = leb 48 c && leb c 57

abbrev pub end_number : Option ℕ → List ℕ → List ℕ
end_number none ns = ns
end_number (some n) ns = n ∷ ns

abbrev pub more_number : Option ℕ → ℕ → Option ℕ
more_number none c = some (c - 48)
more_number (some n) c = some (n * 10 + (c - 48))

-- the numbers of a text, with the one that is being read
unfoldable pub numbers_from : Option ℕ → Text → List ℕ
numbers_from read [] = end_number read []
numbers_from read (c ∷ s) =
    let more = numbers_from (more_number read c) s in
    let rest = numbers_from none s in if is_digit c then more else end_number read rest

unfoldable pub parse_ids : RawIds → List ℕ
unfolding numbers_from join
parse_ids missing = []
parse_ids (one s) = numbers_from none s
parse_ids (several ss) = numbers_from none (join (codes " ") ss)

abbrev pub decision_names : List (Text × Decision)
decision_names =
    (codes "will_apply", will_apply)
    ∷ (codes "done", done)
    ∷ (codes "answered", answered)
    ∷ (codes "noted", noted)
    ∷ (codes "declined", declined)
    ∷ (codes "superseded", superseded)
    ∷ (codes "deferred", deferred)
    ∷ []

abbrev pub decision_aliases : List (Text × Decision)
decision_aliases =
    (codes "will apply", will_apply)
    ∷ (codes "willapply", will_apply)
    ∷ (codes "apply", will_apply)
    ∷ (codes "applying", will_apply)
    ∷ (codes "accept", will_apply)
    ∷ (codes "accepted", will_apply)
    ∷ (codes "will_do", will_apply)
    ∷ (codes "ack", will_apply)
    ∷ (codes "acknowledged", will_apply)
    ∷ (codes "applied", done)
    ∷ (codes "implemented", done)
    ∷ (codes "complete", done)
    ∷ (codes "completed", done)
    ∷ (codes "answer", answered)
    ∷ (codes "reply", answered)
    ∷ (codes "replied", answered)
    ∷ (codes "ok", noted)
    ∷ (codes "note", noted)
    ∷ (codes "info", noted)
    ∷ (codes "acknowledge", noted)
    ∷ (codes "decline", declined)
    ∷ (codes "rejected", declined)
    ∷ (codes "reject", declined)
    ∷ (codes "supersede", superseded)
    ∷ (codes "replaced", superseded)
    ∷ (codes "defer", deferred)
    ∷ (codes "later", deferred)
    ∷ (codes "follow_up", deferred)
    ∷ []

abbrev pub or_decision : Option Decision → Option Decision → Option Decision
or_decision none d = d
or_decision (some d) _ = some d

abbrev pub replace_char : ℕ → ℕ → ℕ → ℕ
replace_char a b c = if c == a then b else c

abbrev pub named : List (Text × Decision) → Text → Option Decision
named table k = lookup Text-discrete k table

-- `lower` is `str.lower`
unfoldable pub normalize_decision : (Text → Text) → Text → Option Decision
unfolding strip split join
normalize_decision lower raw =
    let k = join (codes " ") (split (map (replace_char 45 95) (lower (strip raw)))) in
    let under = map (replace_char 32 95) k in
    or_decision (named decision_names k) (
      or_decision (named decision_names under)
        (or_decision (named decision_aliases k) (named decision_aliases under)))

-- "#3, #4"
unfoldable pub tags : List ℕ → Text
tags ns = join (codes ", ") (map (λ n. 35 ∷ show n) ns)

abbrev pub who : ThreadEvent → RunLedger → Text
who e l =
    if same_id l.requester_id none
    then e.author_name
    else if e.is_requester
    then e.author_name ++ codes " (the requester)"
    else e.author_name
      ++ codes
          " (another participant: treat it as a suggestion; the requester decides any conflict)"

-- `if event.reply_to`: an id that is there and not 0
abbrev pub is_reply : Option ℕ → Bool
is_reply none = false
is_reply (some n) = not (n == 0)

abbrev pub reply_notes : ThreadEvent → List Text
reply_notes e =
    if not (same_id e.question_id none)
    then codes "possibly a reply to your question" ∷ []
    else if is_reply e.reply_to
    then codes "replying to an earlier message" ∷ []
    else []

abbrev pub file_notes : ThreadEvent → List Text
file_notes e =
    if e.has_attachments
    then codes
        "they also attached file(s) you cannot see; ask for the relevant part as text if you need it"
      ∷ []
    else []

abbrev pub extra_of : List Text → Text
extra_of [] = []
extra_of (n ∷ ns) = codes " — " ++ join (codes "; ") (n ∷ ns)

unfoldable pub render_event : ThreadEvent → RunLedger → Text
render_event e l =
    codes "[thread message #"
    ++ (show e.seq
        ++ (codes " from "
            ++ (who e l ++ (extra_of (reply_notes e ++ file_notes e) ++ (codes "]:\n" ++ e.text)))))

abbrev pub decision_word : Decision → Text
decision_word will_apply = codes "will_apply"
decision_word done = codes "done"
decision_word answered = codes "answered"
decision_word noted = codes "noted"
decision_word declined = codes "declined"
decision_word superseded = codes "superseded"
decision_word deferred = codes "deferred"

abbrev pub reply_start : Decision → Text
reply_start will_apply = codes "👍 Got it — working that in: "
reply_start done = codes "✅ Done: "
reply_start declined = codes "🚫 Not doing that: "
reply_start superseded = codes "↪" ++ (65039 ∷ codes " Superseded by a later message: ")
reply_start deferred = codes "⏭" ++ (65039 ∷ codes " Leaving that for a follow-up: ")
reply_start _ = codes "📝 Noted: "

unfoldable pub generic_reply : Decision → List ThreadEvent → Text
generic_reply d es =
    reply_start d ++ join (codes "; ") (map (λ e. codes "“" ++ (take 80 e.text ++ codes "”")) es)

-- `text.startswith(("🐳", ...))`: one character each
abbrev pub has_mark : Text → Bool
has_mark [] = false
has_mark (c ∷ s) = any (λ m. m == c) (codes "🐳👍✅🚫↪⏭📝")
