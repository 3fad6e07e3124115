-- ===== src/Runner.antt =====
-- core/classes/automation_runner.py: `execute`, the run of a job's automations. What Discord, the
-- model and the store answer, exceptions included, are arguments, but Redis answers when a mark is
-- set. The wording of prompts and notices, the metrics and the typing indicator are left out.
pub mod Quiet
pub mod Marks
pub mod Once
pub mod Expected
pub mod Outcomes
pub mod Released
pub mod Poll
pub mod Admits
use discord_chat_bot.Prelude.{
  ℕ, Bool, true, false, not, ◌&&◌, Option, none, some, List, [], ◌∷◌, ◌++◌, ◌==◌, if◌then◌else◌,
  filter, map,
}
use discord_chat_bot.Text.{Text, codes, is_empty}
use discord_chat_bot.Text.Number.{show}
use discord_chat_bot.Claims.{KeyStore, Claim, prefix, is_some, release}
use discord_chat_bot.Entries.{Entry}
use discord_chat_bot.Records.{is_enabled, is_schedule}
use discord_chat_bot.Records.Quota.{get_row}

-- what looking for a channel or a member comes to: NotFound, Forbidden, or another exception
pub data Looked : Type 0 where
  found absent denied raised : Looked

pub record Perms : Type 0 where
  pub view_channel : Bool
  pub send_messages : Bool

-- What is answered in one run: of the model, none if it raises or answers "Error", or else the
-- messages that its answer, its sandbox's thread and its reasoning come to; of Discord, whether a
-- message is taken; of the store, whether a record is read, an update or an outcome is written, and
-- a claim's release goes through: where not, an exception is raised and nothing is changed.
pub record World : Type 0 where
  pub channel : Looked
  pub in_guild : Bool
  pub member : Looked
  pub actor : Perms
  pub bot : Option Perms
  pub answer : Option (List Text)
  pub takes : Text → Bool
  pub updates : Entry → Bool
  pub stores : Entry → Text → Bool
  pub reads : Entry → Bool
  pub releases : Claim → Bool

pub data Effect : Type 0 where
  ran : List Entry → Effect
  posted : Text → Effect
  suspended : Entry → Effect
  recorded : Entry → Text → Effect
  notified : Effect

-- AccessLost, or another exception
pub data Trouble : Type 0 where
  access_lost failure : Trouble

-- an exception, whether the channel is known then, and whether the sending has begun
pub record Raised : Type 0 where
  pub trouble : Trouble
  pub has_channel : Bool
  pub send_started : Bool

abbrev pub lost : Bool → Option Raised
lost has_channel =
    some (record { trouble = access_lost; has_channel = has_channel; send_started = false })

abbrev pub broken : Bool → Bool → Raised
broken has_channel started = record {
  trouble = failure;
  has_channel = has_channel;
  send_started = started;
}

abbrev pub may_send : Perms → Bool
may_send p = p.view_channel && p.send_messages

abbrev pub bot_lost : Option Perms → Option Raised
bot_lost none = none
bot_lost (some p) = if may_send p then none else lost true

abbrev pub member_lost : Looked → Perms → Option Perms → Option Raised
member_lost absent actor bot = lost false
member_lost denied actor bot = lost false
member_lost raised actor bot = some (broken true false)
member_lost found actor bot = if may_send actor then bot_lost bot else lost true

abbrev pub channel_lost : Looked → Bool → Looked → Perms → Option Perms → Option Raised
channel_lost absent guild member actor bot = lost false
channel_lost denied guild member actor bot = lost false
channel_lost raised guild member actor bot = some (broken false false)
channel_lost found false member actor bot = lost true
channel_lost found true member actor bot = member_lost member actor bot

-- the checks of the channel, the last editor and the permissions
unfoldable pub access : World → Option Raised
access w = channel_lost w.channel w.in_guild w.member w.actor w.bot

abbrev pub is_same_revision : Entry → Option Entry → Bool
is_same_revision row none = false
is_same_revision row (some current) = current.revision == row.revision && is_enabled current.status

-- the rows whose records have not changed since
unfoldable pub current_rows : (Text → Option Entry) → List Entry → List Entry
current_rows entry records =
    filter (λ row. is_same_revision row (get_row (entry row.ident))) records

-- `store.get` of one record after the other, up to one that raises
unfoldable pub read_all : (Entry → Bool) → List Entry → Bool × List Entry
read_all reads [] = (true, [])
read_all reads (row ∷ records) =
    let (all_read, rest) = read_all reads records in
    if reads row then (all_read, row ∷ rest) else (false, [])

unfoldable pub started_key : ℕ → Entry → Text
started_key guild row =
    prefix
    ++ (codes ":started:"
        ++ (show guild ++ (codes ":" ++ (row.ident ++ (codes ":" ++ show row.next_run)))))

abbrev pub outcome_of : Trouble → Bool → Text
outcome_of access_lost started = codes "suspended"
outcome_of failure true = codes "uncertain_delivery"
outcome_of failure false = codes "failed"

-- `channel.send` of one message after the other, up to one that is not taken
unfoldable pub send_all : (Text → Bool) → List Text → Bool × List Effect
send_all takes [] = (true, [])
send_all takes (m ∷ ms) =
    let (all_sent, rest) = send_all takes ms in
    if takes m then (all_sent, posted m ∷ rest) else (false, [])

module _ (w : World) where
  abbrev pub record_row : Text → Entry → List Effect
  record_row outcome row = if w.stores row outcome then recorded row outcome ∷ [] else []

  -- one row's handling in the `except`
  abbrev pub fail_row : Trouble → Text → Entry → List Effect
  fail_row access_lost outcome row =
      if w.updates row then suspended row ∷ record_row outcome row else []
  fail_row failure outcome row = record_row outcome row

  unfoldable pub fail_rows : Trouble → Text → List Entry → List Effect
  fail_rows t outcome [] = []
  fail_rows t outcome (row ∷ rows) = fail_row t outcome row ++ fail_rows t outcome rows

  unfoldable pub fail : List Entry → Raised → List Effect
  fail rows r =
      fail_rows r.trouble (outcome_of r.trouble r.send_started) rows
      ++ (if r.has_channel && not r.send_started then notified ∷ [] else [])

  -- `finish` of one row after the other, up to one that raises
  unfoldable pub complete_rows : List Entry → Bool × List Effect
  complete_rows [] = (true, [])
  complete_rows (row ∷ rows) =
      let (all_written, rest) = complete_rows rows in
      if w.stores row (codes "completed")
      then (all_written, recorded row (codes "completed") ∷ rest)
      else (false, [])

  unfoldable pub complete : List Entry → List Effect
  complete rows =
      let (all_written, out) = complete_rows rows in
      out ++ (if all_written then [] else fail rows (broken true true))

  unfoldable pub deliver : List Entry → List Text → List Effect
  deliver rows messages =
      let (all_sent, out) = send_all w.takes messages in
      out ++ (if all_sent then complete rows else fail rows (broken true true))

  abbrev pub answered : List Entry → Option (List Text) → List Effect
  answered rows none = fail rows (broken true false)
  answered rows (some messages) = deliver rows messages

module _ {S : Type 0} (store : KeyStore S) where
  -- a release that raises leaves the lock
  unfoldable pub release_all : (Claim → Bool) → ℕ → List Claim → S → S
  release_all releases now [] s = s
  release_all releases now (c ∷ cs) s =
      release_all releases now cs (if releases c then release store now (some c) s else s)

module _ {S : Type 0} (store : KeyStore S) (guild : ℕ) where
  -- the marks that the schedules' runs have started: false if one was there
  unfoldable pub mark_all : ℕ → List Entry → S → Bool × S
  mark_all now [] s = (true, s)
  mark_all now (row ∷ rows) s =
      let key = started_key guild row in
      let others = mark_all now rows s in
      let marked = mark_all now rows (store.set_ex now key (codes "1") 604800 s) in
      if is_schedule row.kind
      then if is_some (store.get now s key) then (false, s) else marked
      else others

  abbrev pub start : World → ℕ → List Entry → Option Raised → S → List Effect × S
  start w now rows (some r) s = (fail w rows r, s)
  start w now rows none s =
      let (fresh, s') = mark_all now rows s in
      (if fresh then ran rows ∷ answered w rows w.answer else [], s')

  unfoldable pub run_rows : World → ℕ → List Entry → S → List Effect × S
  run_rows w now rows s = if is_empty rows then ([], s) else start w now rows (access w) s

  -- the `try` and its `except`
  unfoldable pub work : World → (Text → Option Entry) → ℕ → List Entry → S → List Effect × S
  work w entry now records s =
      let (all_read, looked) = read_all w.reads records in
      let rows = current_rows entry looked in
      if all_read then run_rows w now rows s else (fail w rows (broken false false), s)

  -- `execute`: what it does, and the store, from which the claims are released at the later time
  unfoldable pub execute :
      World → (Text → Option Entry) → ℕ → ℕ → List Entry → List Claim → S → List Effect × S
  execute w entry now later records claims s =
      let (trace, s') = work w entry now records s in
      (trace, release_all store w.releases later claims s')
