-- ===== src/Runner/Outcomes.antt =====
-- What a job's run records.
use discord_chat_bot.Prelude.{
  ℕ, ◌≡◌, refl, ap, ◌∙◌, inl, inr, Bool, true, false, not, ◌&&◌, Option, none, some, List, [], ◌∷◌,
  ◌++◌, if◌then◌else◌, all, map, Bool-cases,
}
use discord_chat_bot.Text.{Text, codes}
use discord_chat_bot.Claims.{KeyStore, Claim}
use discord_chat_bot.Entries.{Entry}
use discord_chat_bot.Runner.{
  World, Effect, ran, posted, suspended, recorded, notified, Trouble, access_lost, failure, Raised,
  broken, access, current_rows, outcome_of, send_all, fail_rows, fail, complete_rows, complete,
  deliver, answered, mark_all, start, read_all, run_rows, work, execute,
}
use discord_chat_bot.Runner.Expected.{
  answer_result, expected, expected_from, expected-access, IsBefore, access-IsBefore,
  outcome_of-refused,
}

-- the results that are recorded, in order
abbrev pub results : List Effect → List (Entry × Text)
results [] = []
results (recorded row outcome ∷ trace) = (row, outcome) ∷ results trace
results (_ ∷ trace) = results trace

abbrev pub result_of : Text → List Entry → List (Entry × Text)
result_of outcome rows = map (λ row. (row, outcome)) rows

results-append : (xs ys : List Effect) → results (xs ++ ys) ≡ results xs ++ results ys
results-append [] ys = refl
results-append (ran rows ∷ xs) ys = results-append xs ys
results-append (posted m ∷ xs) ys = results-append xs ys
results-append (suspended row ∷ xs) ys = results-append xs ys
results-append (recorded row o ∷ xs) ys = ap (λ r. (row, o) ∷ r) (results-append xs ys)
results-append (notified ∷ xs) ys = results-append xs ys

append_nil : (xs : List (Entry × Text)) → xs ++ [] ≡ xs
append_nil [] = refl
append_nil (x ∷ xs) = ap (λ r. x ∷ r) (append_nil xs)

results-send_all : (takes : Text → Bool) (ms : List Text) → results (send_all takes ms).1 ≡ []
unfolding send_all
results-send_all takes [] = refl
results-send_all takes (m ∷ ms) = elim (Bool-cases (takes m)) [
  | inl e ↦ rw e (results-send_all takes ms)
  | inr e ↦ rw e refl
]

send_all-all : (takes : Text → Bool) (ms : List Text) → (send_all takes ms).0 ≡ all takes ms
unfolding send_all
send_all-all takes [] = refl
send_all-all takes (m ∷ ms) = elim (Bool-cases (takes m)) [
  | inl e ↦ rw e (send_all-all takes ms)
  | inr e ↦ rw e refl
]

results-recorded :
    (rows : List Entry) (outcome : Text)
    → results (map (λ row. recorded row outcome) rows ++ []) ≡ result_of outcome rows
results-recorded [] outcome = refl
results-recorded (row ∷ rows) outcome = ap (λ r. (row, outcome) ∷ r) (results-recorded rows outcome)

module _ (w : World) (up : (row : Entry) → w.updates row ≡ true)
    (kept : (row : Entry) (outcome : Text) → w.stores row outcome ≡ true) where
  results-fail_rows :
      (t : Trouble) (outcome : Text) (rows : List Entry)
      → results (fail_rows w t outcome rows) ≡ result_of outcome rows
  unfolding fail_rows
  results-fail_rows t outcome [] = refl
  results-fail_rows access_lost outcome (row ∷ rows) =
      rw (up row, kept row outcome)
        (ap (λ r. (row, outcome) ∷ r) (results-fail_rows access_lost outcome rows))
  results-fail_rows failure outcome (row ∷ rows) =
      rw (kept row outcome) (ap (λ r. (row, outcome) ∷ r) (results-fail_rows failure outcome rows))

  results-fail :
      (rows : List Entry) (r : Raised)
      → results (fail w rows r) ≡ result_of (outcome_of r.trouble r.send_started) rows
  unfolding fail
  results-fail rows r =
      let outcome = outcome_of r.trouble r.send_started in
      results-append (fail_rows w r.trouble outcome rows) _
      ∙ (rw (results-fail_rows r.trouble outcome rows)
          (quiet (r.has_channel && not r.send_started) (result_of outcome rows)))
    where
      quiet :
          (b : Bool) (xs : List (Entry × Text))
          → xs ++ results (if b then notified ∷ [] else []) ≡ xs
      quiet true xs = append_nil xs
      quiet false xs = append_nil xs

  complete_rows-all :
      (rows : List Entry)
      → complete_rows w rows ≡ (true, map (λ row. recorded row (codes "completed")) rows)
  unfolding complete_rows
  complete_rows-all [] = refl
  complete_rows-all (row ∷ rows) = rw (kept row (codes "completed"), complete_rows-all rows) refl

  results-complete :
      (rows : List Entry) → results (complete w rows) ≡ result_of (codes "completed") rows
  unfolding complete
  results-complete rows = rw (complete_rows-all rows) (results-recorded rows (codes "completed"))

  results-deliver :
      (rows : List Entry) (ms : List Text)
      → results (deliver w rows ms) ≡ result_of (answer_result w.takes (some ms)) rows
  unfolding deliver
  results-deliver rows ms =
      results-append (send_all w.takes ms).1 _
      ∙ rw (results-send_all w.takes ms, send_all-all w.takes ms)
          (elim (Bool-cases (all w.takes ms)) [
            | inl e ↦ rw e (results-complete rows)
            | inr e ↦ rw e (results-fail rows (broken true true))
          ])

  results-answered :
      (rows : List Entry) (answer : Option (List Text))
      → results (answered w rows answer) ≡ result_of (answer_result w.takes answer) rows
  results-answered rows none = results-fail rows (broken true false)
  results-answered rows (some ms) = results-deliver rows ms

  module _ {S : Type 0} (store : KeyStore S) (guild now : ℕ) (s : S) where
    results-start :
        (rows : List Entry) (r : Option Raised)
        → IsBefore r
        → (mark_all store guild now rows s).0 ≡ true
        → results (start store guild w now rows r s).0 ≡ result_of (expected_from w r) rows
    unfolding IsBefore
    results-start rows (some r) b fresh =
        results-fail rows r
        ∙ ap (λ o. result_of o rows) (ap (outcome_of r.trouble) b ∙ outcome_of-refused r.trouble)
    results-start rows none b fresh = rw fresh (results-answered rows w.answer)

    results-run_rows :
        (rows : List Entry)
        → (mark_all store guild now rows s).0 ≡ true
        → results (run_rows store guild w now rows s).0 ≡ result_of (expected w) rows
    unfolding run_rows
    results-run_rows [] fresh = refl
    results-run_rows (row ∷ rows) fresh =
        results-start (row ∷ rows) (access w) (access-IsBefore w) fresh
        ∙ ap (λ o. result_of o (row ∷ rows)) (expected-access w)

    -- If the store takes what is written and no run of the accepted rows has started before, each
    -- accepted row, of those up to the first whose reading raises, gets one result, in order: failed
    -- if a reading raised; else suspended if the channel or the editor is absent or forbidden, or
    -- one of the editor and the bot may not see the channel and send to it; else failed if the look
    -- at them or the model fails; and else completed if each message was taken, and of uncertain
    -- delivery if not.
    pub execute-results :
        (entry : Text → Option Entry) (later : ℕ) (records : List Entry) (claims : List Claim)
        → (mark_all store guild now (current_rows entry (read_all w.reads records).1) s).0 ≡ true
        → results (execute store guild w entry now later records claims s).0
          ≡ result_of
              (if (read_all w.reads records).0 then expected w else codes "failed")
              (current_rows entry (read_all w.reads records).1)
    unfolding execute work
    execute-results entry later records claims fresh =
        let rows = current_rows entry (read_all w.reads records).1 in
        elim (Bool-cases (read_all w.reads records).0) [
          | inl e ↦ rw e (results-run_rows rows fresh)
          | inr e ↦ rw e (results-fail rows (broken false false))
        ]
