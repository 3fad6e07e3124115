-- ===== src/Runner/Quiet.antt =====
-- What an execution does besides running the model.
use discord_chat_bot.Prelude.{
  ◌≡◌, refl, Bool, true, false, not, ◌&&◌, List, [], ◌∷◌, if◌then◌else◌, any, All, All-append,
}
use discord_chat_bot.Text.{Text}
use discord_chat_bot.Entries.{Entry}
use discord_chat_bot.Runner.{
  World, Effect, ran, suspended, recorded, notified, Trouble, access_lost, failure, Raised,
  record_row, fail_row, fail_rows, fail,
}

abbrev pub is_ran : Effect → Bool
is_ran (ran rows) = true
is_ran _ = false

-- the trace has no run of the model
abbrev IsQuiet : List Effect → Type 0
IsQuiet trace = All (λ e. is_ran e ≡ false) trace

pub IsQuiet-any : (trace : List Effect) → IsQuiet trace → any is_ran trace ≡ false
IsQuiet-any [] h = refl
IsQuiet-any (e ∷ trace) h = rw (h.0, IsQuiet-any trace h.1) refl

if-IsQuiet :
    (b : Bool) (xs ys : List Effect) → IsQuiet xs → IsQuiet ys → IsQuiet (if b then xs else ys)
if-IsQuiet true xs ys h k = h
if-IsQuiet false xs ys h k = k

module _ (w : World) where
  record_row-IsQuiet : (outcome : Text) (row : Entry) → IsQuiet (record_row w outcome row)
  record_row-IsQuiet outcome row =
      if-IsQuiet (w.stores row outcome) (recorded row outcome ∷ []) [] (refl, tt) tt

  fail_row-IsQuiet :
      (t : Trouble) (outcome : Text) (row : Entry) → IsQuiet (fail_row w t outcome row)
  fail_row-IsQuiet access_lost outcome row =
      if-IsQuiet (w.updates row) (suspended row ∷ record_row w outcome row) []
        (refl, record_row-IsQuiet outcome row) tt
  fail_row-IsQuiet failure outcome row = record_row-IsQuiet outcome row

  fail_rows-IsQuiet :
      (t : Trouble) (outcome : Text) (rows : List Entry) → IsQuiet (fail_rows w t outcome rows)
  unfolding fail_rows
  fail_rows-IsQuiet t outcome [] = tt
  fail_rows-IsQuiet t outcome (row ∷ rows) =
      All-append (λ e. is_ran e ≡ false) (fail_row w t outcome row) (fail_rows w t outcome rows)
        (fail_row-IsQuiet t outcome row) (fail_rows-IsQuiet t outcome rows)

  pub fail-IsQuiet : (rows : List Entry) (r : Raised) → IsQuiet (fail w rows r)
  unfolding fail
  fail-IsQuiet rows r =
      All-append (λ e. is_ran e ≡ false) (fail_rows w r.trouble _ rows)
        (if r.has_channel && not r.send_started then notified ∷ [] else [])
        (fail_rows-IsQuiet r.trouble _ rows)
        (if-IsQuiet (r.has_channel && not r.send_started) (notified ∷ []) [] (refl, tt) tt)
