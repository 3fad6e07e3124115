-- ===== src/Conversation.antt =====
-- core/classes/sandbox_conversation_store.py: what a run leaves for the next one in its thread,
-- and how the next one is told. The record's fields, not their JSON, of which only the length is
-- asked; the store itself is Redis.
pub mod Carry
pub mod Preamble
use discord_chat_bot.Prelude.{
  ℕ, ◌-◌, Bool, true, false, Option, none, some, List, [], ◌∷◌, ◌++◌, ltb, ◌==◌, if◌then◌else◌,
  length, take, drop, filter, map,
}
use discord_chat_bot.Text.{Text, codes, is_empty, join}
use discord_chat_bot.Ledger.{deferred}
use discord_chat_bot.Ledger.Stages.{Status, own, accepted_only, ignored, unseen, late, Row}

abbrev pub record_version : ℕ
record_version = 1

abbrev pub max_record_items : ℕ
max_record_items = 10

abbrev pub max_item_chars : ℕ
max_item_chars = 500

-- _CARRY_STATUSES
unfoldable pub carries : Status → Bool
carries late = true
carries unseen = true
carries ignored = true
carries accepted_only = true
carries (own deferred) = true
carries _ = false

pub record Item : Type 0 where
  pub author : Text
  pub text : Text
  pub status : Status

pub record Record : Type 0 where
  pub version : ℕ
  pub outcome : Text
  pub open_question : Option Text
  pub carry : List Item

unfoldable pub item : Row → Item
item r = record { author = take 40 r.author; text = take max_item_chars r.text; status = r.status }

-- `(q or "")[:MAX_ITEM_CHARS] or None`
unfoldable pub clip_question : Option Text → Option Text
clip_question none = none
clip_question (some q) =
    if is_empty (take max_item_chars q) then none else some (take max_item_chars q)

-- `xs[-n:]` for n above 0
abbrev pub last {ℓ} : {A : Type ℓ} → ℕ → List A → List A
last n xs = drop (length xs - n) xs

unfoldable pub build_record : List Row → Text → Option Text → Record
unfolding carries item clip_question
build_record outcomes outcome question = record {
  version = record_version;
  outcome = outcome;
  open_question = clip_question question;
  carry = last max_record_items (map item (filter (λ r. carries r.status) outcomes));
}

abbrev pub max_record_bytes : ℕ
max_record_bytes = 16000

-- the record with the items, less the first ones for as long as it is too large
unfoldable pub cut_to_size : (Record → ℕ) → Record → List Item → Record
cut_to_size bytes r [] = record r { carry = [] }
cut_to_size bytes r (i ∷ items) =
    let rest = cut_to_size bytes r items in
    if ltb max_record_bytes (bytes (record r { carry = i ∷ items }))
    then rest
    else record r { carry = i ∷ items }

-- What `save` writes; `bytes` is the length of a record's JSON in UTF-8.
unfoldable pub saved : (Record → ℕ) → Record → Record
unfolding cut_to_size
saved bytes r = cut_to_size bytes r r.carry

unfoldable pub label : Status → Text
label late = codes "arrived as it was finishing, not applied"
label unseen = codes "arrived too late to be seen, not applied"
label ignored = codes "never answered, may not be applied"
label accepted_only = codes "accepted, not confirmed finished"
label (own deferred) = codes "left for a follow-up"
label _ = codes "not applied"

unfoldable pub item_line : Item → Text
unfolding label
item_line i =
    codes "- " ++ (i.author ++ (codes " (" ++ (label i.status ++ (codes "): " ++ i.text))))

unfoldable pub question_lines : Option Text → List Text
question_lines none = []
question_lines (some []) = []
question_lines (some (c ∷ q)) = (codes "- Your unanswered question: " ++ (c ∷ q)) ∷ []

abbrev preamble_header : Text
preamble_header =
    codes "Loose ends from the previous run in this thread — check whether each "
    ++ (codes "still applies to the request below, and say what you did about them:" ++ (10 ∷ []))

unfoldable pub preamble_of : List Text → Text
preamble_of [] = []
preamble_of (l ∷ ls) = preamble_header ++ (join (10 ∷ []) (l ∷ ls) ++ (10 ∷ 10 ∷ []))

unfoldable pub resume_preamble : Option Record → Text
unfolding item_line question_lines preamble_of
resume_preamble none = []
resume_preamble (some r) =
    if r.version == record_version
    then preamble_of (map item_line r.carry ++ question_lines r.open_question)
    else []
