-- ===== src/Voice/Window.antt =====
-- VoiceHistory of core/classes/voice_policy.py over any conversation.
use discord_chat_bot.Prelude.{
  ℕ, ◌+◌, ◌-◌, ◌≤◌, ◌<◌, ◌≡◌, ◌⊎◌, inl, inr, refl, sym, ap, subst, ◌∙◌, true, false, List, [], ◌∷◌,
  ◌++◌, zero, suc, leb, Bool-cases, arith,
}
use discord_chat_bot.Voice.{
  VoiceMessage, VoiceHistory, new_history, is_user, users, from_user, first_kept, add,
}

users-from_user : (n : ℕ) (ms : List VoiceMessage) → users (from_user n ms) ≡ users ms - n
unfolding users from_user
users-from_user n [] = omega arith
users-from_user zero (m ∷ ms) = elim (Bool-cases (is_user m)) [
  | inl e ↦ rw (e, from_user) (rw (e, users) (omega arith))
  | inr e ↦ rw (e, from_user, users) (users-from_user zero ms)
]
users-from_user (suc n) (m ∷ ms) = elim (Bool-cases (is_user m)) [
  | inl e ↦ rw (e, from_user, users) (omega (arith, users-from_user n ms))
  | inr e ↦ rw (e, from_user, users) (users-from_user (suc n) ms)
]

users-snoc : (ms : List VoiceMessage) (m : VoiceMessage) → users (ms ++ m ∷ []) ≤ users ms + 1
unfolding users
users-snoc [] m = ground arith
users-snoc (x ∷ xs) m = ground (arith, users-snoc xs m)

-- What is kept ends the list.
from_user-end :
    (n : ℕ) (ms : List VoiceMessage) → (older : List VoiceMessage) × (ms ≡ older ++ from_user n ms)
unfolding from_user
from_user-end n [] = ([], refl)
from_user-end zero (m ∷ ms) = elim (Bool-cases (is_user m)) [
  | inl e ↦ ([], rw (e, from_user) refl)
  | inr e ↦
      let (older, q) = from_user-end zero ms in (m ∷ older, rw (e, from_user) (ap (λ x. m ∷ x) q))
]
from_user-end (suc n) (m ∷ ms) = elim (Bool-cases (is_user m)) [
  | inl e ↦
      let (older, q) = from_user-end n ms in (m ∷ older, rw (e, from_user) (ap (λ x. m ∷ x) q))
  | inr e ↦
      let (older, q) = from_user-end (suc n) ms in
      (m ∷ older, rw (e, from_user) (ap (λ x. m ∷ x) q))
]

append_assoc : (xs ys zs : List VoiceMessage) → (xs ++ ys) ++ zs ≡ xs ++ (ys ++ zs)
append_assoc [] ys zs = refl
append_assoc (x ∷ xs) ys zs = ap (λ r. x ∷ r) (append_assoc xs ys zs)

append_nil : (xs : List VoiceMessage) → xs ++ [] ≡ xs
append_nil [] = refl
append_nil (x ∷ xs) = ap (λ r. x ∷ r) (append_nil xs)

unfoldable pub add_all : VoiceHistory → List VoiceMessage → VoiceHistory
add_all h [] = h
add_all h (m ∷ ms) = add_all (add h m).1 ms

-- Adding a message puts it at the end of the window, or cuts the window to `limit` utterances.
pub add_lem :
    (h : VoiceHistory) (m : VoiceMessage)
    → 0 < h.limit
    → (((add h m).0 ≡ false) × ((add h m).1.items ≡ h.items ++ m ∷ []))
      ⊎ (((add h m).0 ≡ true) × (users (add h m).1.items ≡ h.limit))
unfolding add
add_lem h m k =
    let items = h.items ++ m ∷ [] in
    elim (Bool-cases (leb (users items) (h.limit + h.refresh))) [
      | inl e ↦ rw (e, add) (inl (refl, refl))
      | inr e ↦
          let n : first_kept h.limit (users items) ≡ users items - h.limit = ground arith in
          let left = users-from_user (users items - h.limit) items in
          rw (e, add) (inr (refl, rw n (ground arith)))
    ]

-- A window that holds the end of what was said.
abbrev pub IsEnd : List VoiceMessage → List VoiceMessage → Type 0
IsEnd window said = (older : List VoiceMessage) × (said ≡ older ++ window)

add-IsEnd :
    (h : VoiceHistory) (m : VoiceMessage) (said : List VoiceMessage)
    → IsEnd h.items said
    → IsEnd (add h m).1.items (said ++ m ∷ [])
unfolding add
add-IsEnd h m said (older, q) =
    let items = h.items ++ m ∷ [] in
    let grown : said ++ m ∷ [] ≡ older ++ items =
      ap (λ x. x ++ m ∷ []) q ∙ append_assoc older h.items (m ∷ []) in
    elim (Bool-cases (leb (users items) (h.limit + h.refresh))) [
      | inl e ↦ rw (e, add) (older, grown)
      | inr e ↦
          let (cut, p) = from_user-end (first_kept h.limit (users items)) items in
          rw (e, add)
            (
              older ++ cut,
              grown
                  ∙ (ap (λ x. older ++ x) p
                      ∙ sym (
                          append_assoc older cut
                            (from_user (first_kept h.limit (users items)) items))),
            )
    ]

add-bounded :
    (h : VoiceHistory) (m : VoiceMessage)
    → 0 < h.limit
    → (users (add h m).1.items ≤ h.limit + h.refresh)
      × ((add h m).1.limit ≡ h.limit)
      × ((add h m).1.refresh ≡ h.refresh)
unfolding add
add-bounded h m k =
    let items = h.items ++ m ∷ [] in
    elim (Bool-cases (leb (users items) (h.limit + h.refresh))) [
      | inl e ↦ rw (e, add) (ground arith, refl, refl)
      | inr e ↦
          let n : first_kept h.limit (users items) ≡ users items - h.limit = ground arith in
          let left = users-from_user (users items - h.limit) items in
          rw (e, add) (rw n (ground arith), refl, refl)
    ]

add_all_lem :
    (ms : List VoiceMessage) (h : VoiceHistory) (said : List VoiceMessage)
    → 0 < h.limit
    → IsEnd h.items said
    → users h.items ≤ h.limit + h.refresh
    → IsEnd (add_all h ms).items (said ++ ms) × (users (add_all h ms).items ≤ h.limit + h.refresh)
unfolding add_all
add_all_lem [] h said k end bound = (subst (IsEnd h.items) (sym (append_nil said)) end, bound)
add_all_lem (m ∷ ms) h said k end bound =
    let h' = (add h m).1 in
    let (b, l, r) = add-bounded h m k in
    let (q, c) =
      add_all_lem ms h' (said ++ m ∷ []) (omega (arith, k, l)) (add-IsEnd h m said end)
        (omega (arith, b, l, r)) in
    (subst (IsEnd (add_all h' ms).items) (append_assoc said (m ∷ []) ms) q, omega (arith, c, l, r))

-- However much is said, the window is the end of it, with at most `limit + refresh` utterances.
pub add_all-window :
    (limit refresh : ℕ) (ms : List VoiceMessage)
    → 0 < limit
    → IsEnd (add_all (new_history limit refresh) ms).items ms
      × (users (add_all (new_history limit refresh) ms).items ≤ limit + refresh)
unfolding users
add_all-window limit refresh ms k =
    add_all_lem ms (new_history limit refresh) [] k ([], refl) (omega arith)
