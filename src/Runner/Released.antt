-- ===== src/Runner/Released.antt =====
-- A job's claims after its run.
use discord_chat_bot.Prelude.{
  ite, ℕ, ◌≡◌, ◌≢◌, refl, sym, ◌∙◌, inl, inr, Bool, true, false, Option, some, List, [], ◌∷◌, All,
  filter, Bool-cases, subst,
}
use discord_chat_bot.Text.{Text, Text-discrete}
use discord_chat_bot.Entries.{Entry}
use discord_chat_bot.Claims.{KeyStore, Claim, is_token, del_owned, release}
use discord_chat_bot.Runner.{World, release_all, work, execute}

is_token_self : (token : Text) (o : Option Text) → o ≡ some token → is_token token o ≡ true
is_token_self token o h =
    subst (λ o. is_token token o ≡ true) (sym h)
      (elim (Text-discrete token token) as (λ d. ite d true false ≡ true) [
        | yes p ↦ refl
        | no n ↦ absurd (n refl)
      ])

module _ {S : Type 0} (store : KeyStore S) where
  -- the lock is not the claim's at the time
  unfoldable pub IsFree : ℕ → S → Claim → Type 0
  IsFree t s c = store.get t s c.lock ≢ some c.token

  release-IsFree : (t : ℕ) (s : S) (c : Claim) → IsFree t (release store t (some c) s) c
  unfolding IsFree release del_owned
  release-IsFree t s c = elim (Bool-cases (is_token c.token (store.get t s c.lock))) [
    | inl e ↦ rw e (λ h. cc (sym (store.get-del c.lock s t) ∙ h))
    | inr e ↦ rw e (λ h. cc (sym e ∙ is_token_self c.token (store.get t s c.lock) h))
  ]

  -- a release takes no lock
  release-IsFree_other :
      (t : ℕ) (s : S) (c d : Claim) → IsFree t s c → IsFree t (release store t (some d) s) c
  unfolding IsFree release del_owned
  release-IsFree_other t s c d h = elim (Bool-cases (is_token d.token (store.get t s d.lock))) [
    | inr e ↦ rw e h
    | inl e ↦ rw e (elim (Text-discrete c.lock d.lock) [
      | yes p ↦ λ k. cc (
          sym (store.get-del d.lock s t)
          ∙ (subst (λ l. store.get t (store.del d.lock s) l ≡ some c.token) p k))
      | no n ↦ λ k. h (sym (store.get-del_other d.lock s t c.lock n) ∙ k)
    ])
  ]

  release_all-IsFree_other :
      (releases : Claim → Bool) (t : ℕ) (cs : List Claim) (s : S) (c : Claim)
      → IsFree t s c
      → IsFree t (release_all store releases t cs s) c
  unfolding release_all
  release_all-IsFree_other releases t [] s c h = h
  release_all-IsFree_other releases t (d ∷ cs) s c h = elim (Bool-cases (releases d)) [
    | inl e ↦ rw e (
        release_all-IsFree_other releases t cs (release store t (some d) s) c
          (release-IsFree_other t s c d h))
    | inr e ↦ rw e (release_all-IsFree_other releases t cs s c h)
  ]

  release_all-IsFree :
      (releases : Claim → Bool) (t : ℕ) (cs : List Claim) (s : S)
      → All (IsFree t (release_all store releases t cs s)) (filter releases cs)
  unfolding release_all
  release_all-IsFree releases t [] s = tt
  release_all-IsFree releases t (c ∷ cs) s = elim (Bool-cases (releases c)) [
    | inl e ↦
        let freed = release store t (some c) s in
        rw e (
          release_all-IsFree_other releases t cs freed c (release-IsFree t s c),
          release_all-IsFree releases t cs freed,
        )
    | inr e ↦ rw e (release_all-IsFree releases t cs s)
  ]

  -- However a job's run ends, exceptions of Discord, the model and the records' store included, none
  -- of its claims holds its lock then, but those whose release itself raises.
  pub execute-IsFree :
      (guild : ℕ) (w : World) (entry : Text → Option Entry) (now later : ℕ) (records : List Entry)
      (claims : List Claim) (s : S)
      → All
          (IsFree later (execute store guild w entry now later records claims s).1)
          (filter w.releases claims)
  unfolding execute
  execute-IsFree guild w entry now later records claims s =
      release_all-IsFree w.releases later claims (work store guild w entry now records s).1
