-- ===== src/Records/Rewritten.antt =====
-- The commands that write a record which is no more active than the one before.
use discord_chat_bot.Prelude.{
  ℕ, ◌≤◌, ◌≡◌, refl, sym, ap, subst, ◌∙◌, inl, inr, ◌⊎◌, Bool, true, false, not, ◌&&◌, Option, none,
  some, List, ◌∷◌, if◌then◌else◌, All, Bool-cases, and-true, arith,
}
use discord_chat_bot.Entries.{
  Status, enabled, paused, suspended, deleted, completed, failed, unknown, Entry, Changes, Command,
  set_record, Database, run_all, is_record,
}
use discord_chat_bot.Records.{
  is_deleted, is_finished, gives_deleted, or_old, only_deletes, refusal_before,
}
use discord_chat_bot.Records.Due.{IsFor}
use discord_chat_bot.Records.Sound.{entry-kept}
use discord_chat_bot.Records.Quota.{Settings, Quota}
use discord_chat_bot.Records.Limits.{weight, enters, IsWithin, run_all-IsWithin}

-- no quota counts the new record where it did not count the old one
unfoldable pub IsLighter : Entry → Entry → Type 0
IsLighter e' e = (q : Quota) → weight q (some e') ≤ weight q (some e)

gives_deleted-lem :
    (o : Option Status) (st : Status) → gives_deleted o ≡ true → or_old o st ≡ deleted
gives_deleted-lem none st h = cc h
gives_deleted-lem (some deleted) st h = refl
gives_deleted-lem (some enabled) st h = cc h
gives_deleted-lem (some paused) st h = cc h
gives_deleted-lem (some suspended) st h = cc h
gives_deleted-lem (some completed) st h = cc h
gives_deleted-lem (some failed) st h = cc h
gives_deleted-lem (some (unknown t)) st h = cc h

allowed :
    (e : Entry) (ch : Changes) (revision : ℕ)
    → refusal_before e ch revision ≡ none
    → (is_deleted e.status ≡ false) × ((is_finished e.status && not (only_deletes ch)) ≡ false)
unfolding refusal_before
allowed e ch revision h = ground arith

only_deletes-lem : (ch : Changes) → only_deletes ch ≡ true → gives_deleted ch.status ≡ true
unfolding only_deletes
only_deletes-lem ch h = (and-true _ _ h).0

-- a record that is over is counted by no quota
pub IsLighter-over :
    (e' e : Entry) → (is_finished e'.status ≡ true) ⊎ (is_deleted e'.status ≡ true) → IsLighter e' e
unfolding IsLighter
IsLighter-over e' e (inl h) q = ground arith
IsLighter-over e' e (inr h) q = ground arith

lighter : (a b : Bool) → (if a && b then 1 else 0) ≤ (if true && b then 1 else 0)
lighter a b = ground arith

-- one that is active counts at least as much as any with its flag
IsLighter-active :
    (e' e : Entry)
    → e'.followup ≡ e.followup
    → is_finished e.status ≡ false
    → is_deleted e.status ≡ false
    → IsLighter e' e
unfolding IsLighter
IsLighter-active e' e h f d q = rw (f, d, h) (lighter _ _)

pub IsLighter-same :
    (e' e : Entry) → e'.followup ≡ e.followup → e'.status ≡ e.status → IsLighter e' e
unfolding IsLighter
IsLighter-same e' e h k q = rw (h, k) (omega arith)

-- commands that write the record e' for e, and enter no name
unfoldable pub Rewrites : Entry → Entry → List Command → Type 0
Rewrites e e' cs =
    (kept : Option ℕ) × (rest : List Command) × (cs ≡ set_record e' kept ∷ rest)
    × (e'.ident ≡ e.ident)
    × All (λ c. is_record c ≡ false) rest
    × All (IsFor e.ident) rest
    × All (λ c. enters c ≡ false) rest
    × IsLighter e' e

pub Rewrites-IsWithin :
    {S : Type 0} (db : Database S) (cfg : Settings) (s : S) (e e' : Entry) (cs : List Command)
    → db.entry s e.ident ≡ some e
    → Rewrites e e' cs
    → IsWithin db cfg s
    → IsWithin db cfg (run_all db cs s)
unfolding Rewrites IsFor IsLighter run_all
Rewrites-IsWithin db cfg s e e' cs q (kept, rest, same, i, quiet, for_one, none_enters, light) w =
    subst (λ cs. IsWithin db cfg (run_all db cs s)) (sym same)
      (run_all-IsWithin db cfg e.ident (set_record e' kept ∷ rest) s (i, for_one)
        (refl, none_enters) no_weightier w)
  where
    stored : db.entry (run_all db (set_record e' kept ∷ rest) s) e.ident ≡ some e'
    stored =
        entry-kept db rest (db.run (set_record e' kept) s) e.ident quiet
        ∙ subst (λ j. db.entry (db.run (set_record e' kept) s) j ≡ some e') i
            (db.entry-set_record s e' kept)

    no_weightier :
        (p : Quota)
        → weight p (db.entry (run_all db (set_record e' kept ∷ rest) s) e.ident)
          ≤ weight p (db.entry s e.ident)
    no_weightier p = omega (arith, ap (weight p) stored, ap (weight p) q, light p)

pub update-IsLighter :
    (e e' : Entry) (ch : Changes) (revision : ℕ)
    → refusal_before e ch revision ≡ none
    → e'.followup ≡ e.followup
    → e'.status ≡ or_old ch.status e.status
    → IsLighter e' e
update-IsLighter e e' ch revision h f st =
    let (d, over) = allowed e ch revision h in
    elim (Bool-cases (is_finished e.status)) [
      | inr live ↦ IsLighter-active e' e f live d
      | inl past ↦ IsLighter-over e' e (
          inr (
            rw
              (
                st,
                gives_deleted-lem ch.status e.status (only_deletes-lem ch (deletes _ _ past over)),
              )
              refl))
    ]
  where
    deletes : (a b : Bool) → a ≡ true → (a && not b) ≡ false → b ≡ true
    deletes a b h k = ground arith
