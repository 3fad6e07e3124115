-- ===== src/Voice/Wake.antt =====
-- core/classes/voice_policy.py: whether the words of an utterance have the wake phrase. A score is a
-- fraction, where the code has the float that is nearest to it.
pub mod Span
use discord_chat_bot.Prelude.{
  ℕ, ◌+◌, ◌-◌, ◌*◌, Bool, true, false, not, ◌&&◌, ◌||◌, Option, none, some, List, [], ◌∷◌, ◌++◌,
  zero, suc, ltb, leb, ◌==◌, if◌then◌else◌, length, min, max, take, drop, any, filter, ite,
}
use discord_chat_bot.Text.{Text, codes, is_empty, Text-discrete}
use discord_chat_bot.Pages.{starts_with}
use discord_chat_bot.Voice.Sound.{key, edit, edit_distance}

pub record Score : Type 0 where
  pub part : ℕ
  pub whole : ℕ

abbrev pub no_score : Score
no_score = record { part = 0; whole = 1 }

-- `score > best`
abbrev pub is_better : Score → Score → Bool
is_better score best = ltb (best.part * score.whole) (score.part * best.whole)

-- `score < WAKE_THRESHOLD`, which is 0.8
abbrev pub is_below_threshold : Score → Bool
is_below_threshold score = ltb (score.part * 5) (score.whole * 4)

unfoldable pub joined_keys : List Text → Text
unfolding key
joined_keys [] = []
joined_keys (w ∷ ws) = key w ++ joined_keys ws

abbrev pub score_of : Text → Text → Score
score_of a b =
    let whole = max (length a) (length b) * edit in
    record { part = whole - edit_distance a b; whole = whole }

unfoldable pub ratio : List Text → List Text → Score
unfolding joined_keys edit_distance
ratio heard target =
    let a = joined_keys heard in
    let b = joined_keys target in if is_empty a || is_empty b then no_score else score_of a b

abbrev pub greetings : List Text
greetings =
    codes "hey"
    ∷ codes "hay"
    ∷ codes "hi"
    ∷ codes "hei"
    ∷ codes "heya"
    ∷ codes "hiya"
    ∷ codes "a"
    ∷ codes "eh"
    ∷ codes "ay"
    ∷ codes "ok"
    ∷ codes "okay"
    ∷ codes "yo"
    ∷ codes "hello"
    ∷ []

unfoldable pub is_greeting : Text → Bool
is_greeting w = any (λ g. ite (Text-discrete w g) true false) greetings

-- `heard[0].startswith(_GLUED_GREETINGS)`
unfoldable pub is_glued : Text → Bool
is_glued w = any (λ g. starts_with g w) (filter (λ g. ltb 1 (length g)) greetings)

-- the part of `_similar` for a phrase of a greeting and a name
unfoldable pub similar_name : List Text → Text → List Text → Bool → Score
unfolding is_greeting is_glued ratio
similar_name [] greeting name at_start = no_score
similar_name (h ∷ hs) greeting name at_start =
    if is_greeting h
    then (if is_empty hs then no_score else ratio hs name)
    else if is_glued h && ltb (length (h ∷ hs)) (length (greeting ∷ name))
    then ratio (h ∷ hs) (greeting ∷ name)
    else if at_start && (leb 2 (length name) && length (h ∷ hs) == length name)
    then ratio (h ∷ hs) name
    else no_score

unfoldable pub similar : List Text → List Text → Bool → Score
unfolding similar_name is_greeting ratio
similar heard [] at_start = no_score
similar heard (greeting ∷ name) at_start =
    if not (is_greeting greeting) || is_empty name
    then ratio heard (greeting ∷ name)
    else similar_name heard greeting name at_start

abbrev pub max_leading_words : ℕ
max_leading_words = 3

pub record Best : Type 0 where
  pub score : Score
  pub end : Option ℕ

-- one turn of `match_wake`'s inner loop
unfoldable pub try_span : List Text → List Text → ℕ → ℕ → Best → Best
unfolding similar
try_span heard target start size best =
    let score = similar (take size (drop start heard)) target (start == 0) in
    if ltb size 1 || ltb (length heard) (start + size)
    then best
    else if is_better score best.score
    then record { score = score; end = some (start + size) }
    else best

abbrev pub try_spans : List Text → List Text → ℕ → Best → Best
unfolding try_span
try_spans heard target start best =
    let n = length target in
    try_span heard target start (n + 1)
      (try_span heard target start (n - 1) (try_span heard target start n best))

-- the outer loop, with the turns that are left
unfoldable pub try_starts : List Text → List Text → ℕ → ℕ → Best → Best
unfolding try_span
try_starts heard target zero start best = best
try_starts heard target (suc left) start best =
    try_starts heard target left (start + 1) (try_spans heard target start best)

-- How many words are heard up to the end of the wake phrase, if it is heard.
unfoldable pub wake_end : List Text → List Text → Option ℕ
unfolding try_starts
wake_end heard [] = none
wake_end heard (t ∷ ts) =
    let turns = min max_leading_words (length heard) + 1 in
    let best = try_starts heard (t ∷ ts) turns 0 record { score = no_score; end = none } in
    if is_below_threshold best.score then none else best.end
