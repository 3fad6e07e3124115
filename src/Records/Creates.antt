-- ===== src/Records/Creates.antt =====
-- What is known of a record that `create` writes, and what it does to the store.
use discord_chat_bot.Prelude.{
  All-split, ◌∷◌, [], ℕ, ◌≡◌, refl, sym, subst, inl, inr, ◌⊎◌, Bool, true, false, Option, none,
  some, List, if◌then◌else◌,
}
use discord_chat_bot.Text.{Text}
use discord_chat_bot.Schedule.{anchor_timing, Zone, Result, error, ok, followup_conflict}
use discord_chat_bot.Schedule.Follow.{followup_conflict-none}
use discord_chat_bot.Entries.{
  Kind, schedule, rule, Entry, Command, quota_full, Refused, Outcome, refused, wrote,
}
use discord_chat_bot.Records.{is_enabled, or_refused}
use discord_chat_bot.Records.Quota.{
  Settings, quota_of, is_full, Request, others, creates, unless_close, admit, admit_drafted,
  with_followup, with_next_run, draft_in, draft, new_entry, refusal_first, create,
}
use discord_chat_bot.Records.Apart.{
  IsClear, IsApart, IsAdmitted, room, times_of, other_times, last_time,
}

IsEnabled : Refused ⊎ Entry → Type 0
IsEnabled (inl r) = Unit
IsEnabled (inr e) = is_enabled e.status ≡ true

wrote-entry :
    (e e' : Entry) (cs cs' : List Command) → wrote e cs ≡ wrote e' cs' → (e ≡ e') × (cs ≡ cs')
wrote-entry e e' cs cs' h = (cc, cc)

-- the branches of the transaction
picked :
    (full up : Bool) (clash : Option ℕ) (e e' : Entry) (cs cs' : List Command)
    → (if full
        then refused quota_full
        else if up
        then unless_close clash (wrote e cs)
        else wrote e cs)
      ≡ wrote e' cs'
    → (full ≡ false) × (up ≡ true → clash ≡ none) × (e ≡ e') × (cs ≡ cs')
picked true up clash e e' cs cs' h = cc h
picked false true (some at) e e' cs cs' h = cc h
picked false true none e e' cs cs' h =
    let (a, b) = wrote-entry e e' cs cs' h in (refl, λ p. refl, a, b)
picked false false clash e e' cs cs' h =
    let (a, b) = wrote-entry e e' cs cs' h in (refl, λ p. cc p, a, b)

admit-wrote :
    (cfg : Settings) (e e' : Entry) (now : ℕ) (rows : List Entry) (last : Option ℕ)
    (cs : List Command)
    → admit cfg e now rows last ≡ wrote e' cs
    → (e ≡ e') × IsAdmitted cfg e now rows last cs
unfolding admit IsApart others times_of
admit-wrote cfg e e' now rows last cs h =
    let clash = followup_conflict e.next_run (others e.creator_id rows last) cfg.min_hours in
    let (full, up, same, written) =
      picked (is_full cfg (quota_of e.kind e.followup) rows) e.followup clash e e' (creates e now)
        cs h in
    (
      same,
      (
        sym written,
        room cfg (quota_of e.kind e.followup) rows full,
        λ f.
            let clear =
              (followup_conflict-none e.next_run (others e.creator_id rows last) cfg.min_hours).0
                (up f) in
            let (times, end) =
              All-split (IsClear cfg e) (times_of e.creator_id rows)
                (elim last [ none ↦ [] | some at ↦ at ∷ [] ]) clear in
            (other_times cfg e rows times, last_time cfg e last end),
      ),
    )

pub or_refused-wrote :
    (r : Option Refused) (o : Outcome Entry) (e : Entry) (cs : List Command)
    → or_refused r o ≡ wrote e cs
    → (r ≡ none) × (o ≡ wrote e cs)
or_refused-wrote none o e cs h = (refl, h)
or_refused-wrote (some r) o e cs h = cc h

with_followup-IsEnabled :
    (b : Bool) (context : Text) (e : Entry)
    → is_enabled e.status ≡ true
    → is_enabled (with_followup b context e).status ≡ true
with_followup-IsEnabled true context e h = h
with_followup-IsEnabled false context e h = h

with_next_run-IsEnabled :
    (e : Entry) (b : Bool) (context : Text) (r : Result ℕ)
    → is_enabled e.status ≡ true
    → IsEnabled (with_next_run e b context r)
unfolding IsEnabled
with_next_run-IsEnabled e b context (error f) h = tt
with_next_run-IsEnabled e b context (ok at) h =
    with_followup-IsEnabled b context (record e { next_run = at }) h

inl-IsEnabled : (r : Refused) → IsEnabled (inl r)
unfolding IsEnabled
inl-IsEnabled r = tt

inr-IsEnabled : (e : Entry) → is_enabled e.status ≡ true → IsEnabled (inr e)
unfolding IsEnabled
inr-IsEnabled e h = h

if-IsEnabled :
    (b : Bool) (x y : Refused ⊎ Entry) → IsEnabled x → IsEnabled y → IsEnabled (if b then x else y)
if-IsEnabled true x y h k = h
if-IsEnabled false x y h k = k

module _ (zone_of : Text → Zone) (resolve_timezone : Text → Option Text) (cfg : Settings) where
  draft_in-IsEnabled :
      (zone : Option Text) (e : Entry) (b : Bool) (r : Request) (now : ℕ)
      → is_enabled e.status ≡ true
      → IsEnabled (draft_in zone_of resolve_timezone cfg zone e b r now)
  draft_in-IsEnabled none e b r now h = inl-IsEnabled _
  draft_in-IsEnabled (some zone) e b r now h =
      with_next_run-IsEnabled (record e { timezone = zone; timing = anchor_timing r.timing now }) b
        r.context _ h

  -- a new record is enabled
  draft-IsEnabled :
      (k : Option Kind) (ident : Text) (channel actor : ℕ) (r : Request) (now : ℕ)
      → IsEnabled (draft zone_of resolve_timezone cfg k ident channel actor r now)
  unfolding draft new_entry
  draft-IsEnabled none ident channel actor r now = inl-IsEnabled _
  draft-IsEnabled (some schedule) ident channel actor r now =
      draft_in-IsEnabled _ (new_entry schedule ident channel actor r now) r.followup r now refl
  draft-IsEnabled (some rule) ident channel actor r now =
      if-IsEnabled _ _ _ (inl-IsEnabled _)
        (if-IsEnabled _ _ _ (inr-IsEnabled _ refl) (inl-IsEnabled _))

  admit_drafted-wrote :
      (x : Refused ⊎ Entry) (now : ℕ) (rows : Kind → List Entry) (last : Option ℕ) (e : Entry)
      (cs : List Command)
      → IsEnabled x
      → admit_drafted cfg x now rows last ≡ wrote e cs
      → (is_enabled e.status ≡ true) × IsAdmitted cfg e now (rows e.kind) last cs
  unfolding IsEnabled
  admit_drafted-wrote (inl r) now rows last e cs h k = cc k
  admit_drafted-wrote (inr d) now rows last e cs h k =
      let (same, known) = admit-wrote cfg d e now (rows d.kind) last cs k in
      subst (λ e. (is_enabled e.status ≡ true) × IsAdmitted cfg e now (rows e.kind) last cs) same
        (h, known)

  -- A record that is written is enabled, there is room for it in its quota, and a follow-up is at
  -- least the minimum interval away from its person's others.
  pub create-IsAdmitted :
      (ident : Text) (channel actor : ℕ) (r : Request) (now : ℕ) (early rows : Kind → List Entry)
      (last : Option ℕ) (e : Entry) (cs : List Command)
      → create zone_of resolve_timezone cfg ident channel actor r now early rows last ≡ wrote e cs
      → (is_enabled e.status ≡ true) × IsAdmitted cfg e now (rows e.kind) last cs
  unfolding create
  create-IsAdmitted ident channel actor r now early rows last e cs h =
      let (first, h') = or_refused-wrote (refusal_first cfg r early) _ e cs h in
      admit_drafted-wrote (draft zone_of resolve_timezone cfg r.kind ident channel actor r now) now
        rows last e cs (draft-IsEnabled r.kind ident channel actor r now) h'
