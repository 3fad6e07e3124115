-- ===== src/Egress/Safe.antt =====
-- What the proxy lets through.
use discord_chat_bot.Prelude.{
  ℕ, ◌≡◌, inl, inr, refl, Bool, true, false, not, ◌||◌, ◌&&◌, ◌⊎◌, ◌↔◌, ◌≢◌, Option, none, some,
  List, [], ◌∷◌, all, ite, All, Bool-cases, and-true, or-false, arith,
}
use discord_chat_bot.Text.{Text, codes, is_empty, Text-discrete}
use discord_chat_bot.Egress.{
  Network, Url, forbidden, try_all, addresses, open_found, open_host, Head, Handled, forward_to,
  forward, handle, port_of, split_host_port, tunnel_to,
}

not-false : (b : Bool) → not b ≡ false → b ≡ true
not-false b h = ground arith

and_false : (b : Bool) → (b && false) ≡ false
and_false b = ground arith

module _ (net : Network) where
  abbrev pub IsAllowed : Text → Type 0
  IsAllowed a = net.is_allowed a ≡ true

  all-IsAllowed : (found : List Text) → all net.is_allowed found ≡ true → All IsAllowed found
  all-IsAllowed [] h = tt
  all-IsAllowed (a ∷ found) h = let (x, y) = and-true _ _ h in (x, all-IsAllowed found y)

  -- the addresses that are tried are among those that were found
  try_all-IsAllowed :
      (connects : Text → Bool) (found : List Text)
      → All IsAllowed found
      → All IsAllowed (try_all connects found).tried
  unfolding try_all
  try_all-IsAllowed connects [] h = tt
  try_all-IsAllowed connects (a ∷ found) h = elim (Bool-cases (connects a)) [
    | inl e ↦ rw e (h.0, tt)
    | inr e ↦ rw e (h.0, try_all-IsAllowed connects found h.1)
  ]

  open_found-IsAllowed :
      (port : ℕ) (found : Option (List Text)) → All IsAllowed (open_found net port found).tried
  open_found-IsAllowed port none = tt
  open_found-IsAllowed port (some found) =
      elim (Bool-cases (is_empty found || not (all net.is_allowed found))) [
        | inl e ↦ rw e tt
        | inr e ↦
            rw e (try_all-IsAllowed _ found (all-IsAllowed found (not-false _ (or-false _ _ e).1)))
      ]

  open_host-IsAllowed : (host : Text) (port : ℕ) → All IsAllowed (open_host net host port).tried
  unfolding open_host
  open_host-IsAllowed host port = open_found-IsAllowed port (addresses net host port)

  forward_to-IsAllowed :
      (h : Head) (u : Url) (host : Option Text) (port : Option (Option ℕ))
      → All IsAllowed (forward_to net h u host port).tried
  forward_to-IsAllowed h u none port = tt
  forward_to-IsAllowed h u (some []) port = tt
  forward_to-IsAllowed h u (some (c ∷ s)) none = tt
  forward_to-IsAllowed h u (some (c ∷ s)) (some port) =
      open_host-IsAllowed (c ∷ s) (port_of net port)

  ite-IsAllowed :
      {P : Type 0} (d : Dec P) (x y : Handled)
      → All IsAllowed x.tried
      → All IsAllowed y.tried
      → All IsAllowed (ite d x y).tried
  ite-IsAllowed (yes p) x y h k = h
  ite-IsAllowed (no n) x y h k = k

  forward-IsAllowed : (h : Head) (u : Option Url) → All IsAllowed (forward net h u).tried
  unfolding forward
  forward-IsAllowed h none = tt
  forward-IsAllowed h (some u) =
      ite-IsAllowed (Text-discrete u.scheme (codes "http")) _ _
        (forward_to-IsAllowed h u u.hostname u.port) tt

  tunnel_to-IsAllowed : (to : Option (Text × ℕ)) → All IsAllowed (tunnel_to net to).tried
  tunnel_to-IsAllowed none = tt
  tunnel_to-IsAllowed (some to) = open_host-IsAllowed to.0 to.1

  -- Whatever a client sends, a connection is tried to allowed addresses only.
  pub handle-IsAllowed : (h : Option Head) → All IsAllowed (handle net h).tried
  unfolding handle
  handle-IsAllowed none = tt
  handle-IsAllowed (some h) =
      ite-IsAllowed (Text-discrete (net.upper h.method) (codes "CONNECT")) _ _
        (tunnel_to-IsAllowed (split_host_port h.target 443))
        (forward-IsAllowed h (net.urlsplit h.target))

  -- one of the addresses is not allowed
  abbrev pub HasRefused : List Text → Type 0
  HasRefused [] = ⊥
  HasRefused (a ∷ found) = (net.is_allowed a ≡ false) ⊎ HasRefused found

  HasRefused-all : (found : List Text) → HasRefused found → all net.is_allowed found ≡ false
  HasRefused-all [] h = elim h [ ]
  HasRefused-all (a ∷ found) (inl h) = rw h refl
  HasRefused-all (a ∷ found) (inr h) = rw (HasRefused-all found h) (and_false (net.is_allowed a))

  all-HasRefused : (found : List Text) → all net.is_allowed found ≡ false → HasRefused found
  all-HasRefused [] h = cc h
  all-HasRefused (a ∷ found) h = elim (Bool-cases (net.is_allowed a)) [
    | inl e ↦ inr (all-HasRefused found (rw e at h))
    | inr e ↦ inl e
  ]

  -- trying the addresses ends with a connection, or with a bad gateway
  try_all-ne-refused :
      (connects : Text → Bool) (found : List Text) → (try_all connects found).result ≢ inl forbidden
  unfolding try_all
  try_all-ne-refused connects [] h = cc h
  try_all-ne-refused connects (a ∷ found) h = elim (Bool-cases (connects a)) [
    | inl e ↦ cc (rw e at h)
    | inr e ↦ try_all-ne-refused connects found (rw e at h)
  ]

  none_refused :
      (a : Text) (found : List Text)
      → all net.is_allowed (a ∷ found) ≡ true
      → ¬ ((a ∷ found ≡ []) ⊎ HasRefused (a ∷ found))
  none_refused a found e (inl k) = cc k
  none_refused a found e (inr k) = cc (e, HasRefused-all (a ∷ found) k)

  -- A host that has addresses is refused exactly when there is none of them or one is not allowed,
  -- and then no connection is tried.
  pub open_host-refuses :
      (host : Text) (port : ℕ) (found : List Text)
      → addresses net host port ≡ some found
      → ((open_host net host port).result ≡ inl forbidden ↔ ((found ≡ []) ⊎ HasRefused found))
        × ((found ≡ []) ⊎ HasRefused found → (open_host net host port).tried ≡ [])
  unfolding open_host
  open_host-refuses host port [] h = rw h ((λ _. inl refl, λ _. refl), λ _. refl)
  open_host-refuses host port (a ∷ found) h = elim (Bool-cases (all net.is_allowed (a ∷ found))) [
    | inr e ↦ rw (h, e) ((λ _. inr (all-HasRefused (a ∷ found) e), λ _. refl), λ _. refl)
    | inl e ↦
        rw (h, e)
          (
            (
              λ k. absurd (try_all-ne-refused (λ a. net.connects a port) (a ∷ found) k),
              λ k. absurd (none_refused a found e k),
            ),
            λ k. absurd (none_refused a found e k),
          )
  ]
