-- ===== src/Progress.antt =====
-- core/classes/sandbox_progress.py: the live message of a sandbox run. Here is the transcript, the
-- queue of its commands; how it is drawn is in Progress/Render, the SDK's hooks in Progress/Hooks.
-- A command is known by its place in the queue, as the source knows it by its object.
pub mod Output
pub mod Render
pub mod Fit
pub mod Shown
pub mod Held
pub mod Hooks
pub mod Follow
pub mod Spaced
use discord_chat_bot.Prelude.{
  ℕ, zero, suc, ◌-◌, ◌*◌, Bool, true, false, not, ◌&&◌, Option, none, some, List, [], ◌∷◌, ◌++◌,
  leb, ◌==◌, if◌then◌else◌, length, take, drop, ℤ,
}
use discord_chat_bot.Text.{Text, codes, is_empty, split, join}

abbrev pub max_notes : ℕ
max_notes = 5

abbrev pub note_chars : ℕ
note_chars = 200

abbrev pub field_value_chars : ℕ
field_value_chars = 1024

abbrev pub field_cmd_chars : ℕ
field_cmd_chars = 400

pub record Block : Type 0 where
  pub cmd : Text
  pub stdin : Text
  pub output : Text
  pub exit_code : Option ℤ
  pub process_id : Option ℕ
  pub held : Bool

pub record Transcript : Type 0 where
  pub task : Text
  pub title : Text
  pub files : List Text
  pub footer : Option Text
  pub blocks : List Block
  pub notes : List Text
  pub thinking : Bool

abbrev pub new_block : Text → Block
new_block cmd = record {
  cmd = cmd;
  stdin = [];
  output = [];
  exit_code = none;
  process_id = none;
  held = false;
}

-- `" ".join(text.split())`
unfoldable pub one_line : Text → Text
one_line s = join (codes " ") (split s)

unfoldable pub new_transcript : Text → Text → List Text → Option Text → Transcript
new_transcript task title files footer = record {
  task = one_line task;
  title = title;
  files = files;
  footer = footer;
  blocks = [];
  notes = [];
  thinking = false;
}

unfoldable pub lstrip_lines : Text → Text
lstrip_lines [] = []
lstrip_lines (c ∷ s) = let rest = lstrip_lines s in if c == 10 then rest else c ∷ s

unfoldable pub rstrip_lines : Text → Text
rstrip_lines [] = []
rstrip_lines (c ∷ s) =
    let rest = rstrip_lines s in if is_empty rest && c == 10 then [] else c ∷ rest

-- `s.strip("\n")`
unfoldable pub strip_lines : Text → Text
strip_lines s = rstrip_lines (lstrip_lines s)

-- the last `cap` characters, or the first, with a mark of what was cut
unfoldable pub tail : Text → ℕ → Text
tail text cap =
    if leb (length text) cap then text else codes "… " ++ drop (length text - (cap - 2)) text

unfoldable pub head : Text → ℕ → Text
head text cap = if leb (length text) cap then text else take (cap - 2) text ++ codes "… "

-- `xs[-n:]` for n above 0
abbrev pub latest {ℓ} : {A : Type ℓ} → ℕ → List A → List A
latest n xs = drop (length xs - n) xs

abbrev pub clear_footer : Transcript → Transcript
clear_footer t = record t { footer = none }

unfoldable pub add_note : Text → Transcript → Transcript
add_note text t =
    if is_empty (one_line text)
    then t
    else record t { notes = latest max_notes (t.notes ++ take note_chars (one_line text) ∷ []) }

-- the transcript with the command, and the command's place
unfoldable pub add_command : Text → Transcript → ℕ × Transcript
add_command cmd t = (
  length t.blocks,
  record t { blocks = t.blocks ++ new_block (head (strip_lines cmd) field_cmd_chars) ∷ [] },
)

abbrev pub or_blank : List Block → List Block
or_blank [] = new_block [] ∷ []
or_blank (b ∷ bs) = b ∷ bs

-- `_current_block`: the last command, or a new one
unfoldable pub current_block : Transcript → ℕ × Transcript
current_block t = let t' = record t { blocks = or_blank t.blocks } in (length t'.blocks - 1, t')

unfoldable pub change_at : ℕ → (Block → Block) → List Block → List Block
change_at i f [] = []
change_at zero f (b ∷ bs) = f b ∷ bs
change_at (suc i) f (b ∷ bs) = b ∷ change_at i f bs

abbrev pub change_block : ℕ → (Block → Block) → Transcript → Transcript
change_block i f t = record t { blocks = change_at i f t.blocks }

-- the block that the caller names, or the current one
unfoldable pub target : Option ℕ → Transcript → ℕ × Transcript
target none t = current_block t
target (some i) t = (i, t)

abbrev pub line_break : Text
line_break = 10 ∷ []

unfoldable pub put_input : Text → Block → Block
put_input chars b = record b {
  stdin = head (strip_lines (b.stdin ++ (line_break ++ chars))) field_cmd_chars;
}

unfoldable pub add_input : Text → Transcript → Transcript
add_input chars t =
    let (i, t') = current_block t in
    if is_empty (strip_lines chars) then t else change_block i (put_input (strip_lines chars)) t'

abbrev pub is_set {ℓ} : {A : Type ℓ} → Option A → Bool
is_set none = false
is_set (some a) = true

unfoldable pub put_output : Text → Option ℤ → Option ℕ → Block → Block
put_output out exit_code process_id b =
    let joined = tail (strip_lines (b.output ++ (line_break ++ out))) (field_value_chars * 2) in
    record b {
      held = false;
      output = if is_empty out then b.output else joined;
      exit_code = exit_code;
      process_id = process_id;
    }

unfoldable pub add_output : Text → Option ℤ → Option ℕ → Option ℕ → Transcript → Transcript
add_output output exit_code process_id block t =
    let out = strip_lines output in
    let (i, t') = target block t in
    if is_empty out && (not (is_set exit_code) && not (is_set process_id))
    then t
    else change_block i (put_output out exit_code process_id) t'

unfoldable pub hold : Block → Block
hold b = if is_empty b.output && not (is_set b.exit_code) then record b { held = true } else b

unfoldable pub mark_held : Option ℕ → Transcript → Transcript
mark_held block t = let (i, t') = target block t in change_block i hold t'

abbrev pub set_thinking : Bool → Transcript → Transcript
set_thinking thinking t = record t { thinking = thinking }
