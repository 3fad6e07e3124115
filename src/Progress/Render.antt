-- ===== src/Progress/Render.antt =====
-- core/classes/sandbox_progress.py and tool_embeds.py: how a transcript is drawn. An embed here is
-- its parts; Discord's library is not modelled.
use discord_chat_bot.Prelude.{
  ℕ, zero, suc, ◌+◌, ◌-◌, ◌*◌, ◌/◌, max, Bool, not, ◌&&◌, ◌||◌, Option, none, some, List, [], ◌∷◌,
  ◌++◌, ltb, leb, ◌==◌, if◌then◌else◌, length, take, drop, any, map, sum, ℤ, pos, negsuc,
}
use discord_chat_bot.Text.{Text, codes, is_empty, join}
use discord_chat_bot.Text.Number.{show}
use discord_chat_bot.Progress.{
  Block, Transcript, field_value_chars, field_cmd_chars, one_line, tail, head, latest, is_set,
}

abbrev pub max_body_chars : ℕ
max_body_chars = 1850

abbrev pub field_name_chars : ℕ
field_name_chars = 200

abbrev pub max_fields : ℕ
max_fields = 25

abbrev pub embed_char_budget : ℕ
embed_char_budget = 5800

abbrev pub description_chars : ℕ
description_chars = 1000

-- COLOR_TOOL, COLOR_RUNNING and COLOR_FAIL
pub data Color : Type 0 where
  tool running fail : Color

pub record FieldSpec : Type 0 where
  pub name : Text
  pub value : Text

pub record EmbedSpec : Type 0 where
  pub title : Text
  pub color : Color
  pub description : Text
  pub fields : List FieldSpec
  pub footer : Option Text

-- "```lang\ntext\n```"
abbrev pub fence : Text → Text → Text
fence text lang = codes "```" ++ (lang ++ (10 ∷ (text ++ (10 ∷ codes "```"))))

unfoldable pub clip_body : Text → Text
clip_body body =
    if ltb max_body_chars (length body) then take (max_body_chars - 1) body ++ codes "…" else body

unfoldable pub render_body : Transcript → Text
render_body t = clip_body (
    join (10 ∷ [])
      (latest 3 t.notes ++ (if t.thinking then codes "💭 model thinking…" ∷ [] else [])))

abbrev pub color_of : Block → Color
color_of b =
    if b.held
    then tool
    else (elim b.exit_code [ none ↦ running | some (pos zero) ↦ tool | some _ ↦ fail ])

unfoldable pub state_color : List Block → Color
state_color [] = tool
state_color (b ∷ []) = color_of b
state_color (b ∷ c ∷ bs) = state_color (c ∷ bs)

abbrev pub show_ℤ : ℤ → Text
show_ℤ (pos n) = show n
show_ℤ (negsuc n) = 45 ∷ show (suc n)

abbrev pub exit_line : ℤ → Text
exit_line (pos zero) = codes "exit 0"
exit_line n = codes "**exit " ++ (show_ℤ n ++ codes "**")

unfoldable pub status_line : Block → Text
status_line b =
    if b.held then codes "⏸ not run — answering thread messages first" else (elim b.exit_code [
      | some n ↦ exit_line n
      | none ↦
          if is_set b.process_id || not (is_empty b.output) then codes "… still running" else []
    ])

abbrev pub is_blank : Block → Bool
is_blank b =
    is_empty b.cmd
    && (is_empty b.stdin
        && (is_empty b.output && (not (is_set b.exit_code) && not (is_set b.process_id))))

abbrev pub fits_name : Block → Bool
fits_name b =
    not (is_empty b.cmd)
    && (is_empty b.stdin && (not (any (λ c. c == 10) b.cmd) && leb (length b.cmd) field_name_chars))

unfoldable pub field_name : Block → Text
field_name b =
    if fits_name b
    then codes "$ " ++ b.cmd
    else if is_empty b.cmd
    then codes "⌨ stdin"
    else codes "⌨ Command"

unfoldable pub shell_part : Text → List Text
shell_part s = if is_empty s then [] else fence (head s field_cmd_chars) (codes "sh") ∷ []

-- the command, where it does not fit the name, and what was typed
unfoldable pub input_parts : Block → List Text
input_parts b = (if fits_name b then [] else shell_part b.cmd) ++ shell_part b.stdin

-- the room that the other parts leave; below 0 and 0 are the same to `max(room, 40)`
unfoldable pub output_room : List Text → Text → ℕ
output_room parts status =
    max (field_value_chars - (sum (map length parts) + length status) - 2 * (length parts + 1) - 5)
      40

unfoldable pub output_part : List Text → Text → Text → List Text
output_part parts status output =
    if is_empty output then [] else fence (tail output (output_room parts status)) [] ∷ []

abbrev pub status_part : Text → List Text
status_part s = if is_empty s then [] else s ∷ []

unfoldable pub value_parts : Block → List Text
value_parts b =
    let parts = input_parts b in
    let status = status_line b in parts ++ (output_part parts status b.output ++ status_part status)

unfoldable pub field_value : Block → Text
field_value b = tail (join (10 ∷ 10 ∷ []) (value_parts b)) field_value_chars

unfoldable pub field_for_block : Block → Option FieldSpec
field_for_block b =
    if is_blank b
    then none
    else some (record { name = take 256 (field_name b); value = field_value b })

unfoldable pub cost : FieldSpec → ℕ
cost f = length f.name + length f.value

-- whether the loop ends before the field
unfoldable pub is_over : FieldSpec → ℕ → ℕ → Bool
is_over f count total = leb max_fields count || ltb embed_char_budget (total + cost f)

-- the loop over the blocks, the newest first: the fields that fit, the newest first
unfoldable pub newest_fields : List Block → ℕ → ℕ → List FieldSpec
newest_fields [] count total = []
newest_fields (b ∷ bs) count total = elim (field_for_block b) [
  | none ↦ newest_fields bs count total
  | some f ↦
      let rest = newest_fields bs (count + 1) (total + cost f) in
      if is_over f count total then [] else f ∷ rest
]

unfoldable pub reversed {ℓ} : {A : Type ℓ} → List A → List A
reversed [] = []
reversed (x ∷ xs) = reversed xs ++ x ∷ []

unfoldable pub rcut_space : Text → Text
rcut_space [] = []
rcut_space (c ∷ s) =
    let rest = rcut_space s in
    if any (λ d. d == 32) s then c ∷ rest else if c == 32 then [] else c ∷ s

abbrev pub is_stop : ℕ → Bool
is_stop c = any (λ d. d == c) (codes ",.;:")

unfoldable pub rstrip_stops : Text → Text
rstrip_stops [] = []
rstrip_stops (c ∷ s) =
    let rest = rstrip_stops s in if is_empty rest && is_stop c then [] else c ∷ rest

-- `cut.rsplit(" ", 1)[0]` where there is a space in its second half
unfoldable pub cut_at_word : Text → ℕ → Text
cut_at_word cut half = if any (λ c. c == 32) (drop half cut) then rcut_space cut else cut

unfoldable pub trim : Text → ℕ → Text
trim text limit =
    let line = one_line text in
    if leb (length line) limit
    then line
    else rstrip_stops (cut_at_word (take (limit - 1) line) (limit / 2)) ++ codes "…"

abbrev pub files_text : List Text → Text
files_text [] = []
files_text (f ∷ fs) = 10 ∷ (codes "📎 " ++ join (codes ", ") (f ∷ fs))

unfoldable pub sandbox_task_text : Text → List Text → ℕ → Text
sandbox_task_text task files limit = trim task limit ++ files_text files

abbrev pub length_of : Option Text → ℕ
length_of none = 0
length_of (some s) = length s

unfoldable pub base_chars : Transcript → ℕ
base_chars t =
    length t.title
    + length (sandbox_task_text t.task t.files description_chars)
    + length_of t.footer

unfoldable pub render_embed : Transcript → EmbedSpec
render_embed t = record {
  title = t.title;
  color = state_color t.blocks;
  description = sandbox_task_text t.task t.files description_chars;
  fields = reversed (newest_fields (reversed t.blocks) 0 (base_chars t));
  footer = t.footer;
}
