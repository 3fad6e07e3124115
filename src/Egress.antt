-- ===== src/Egress.antt =====
-- browserservice/egress_proxy.py: the proxy that the browser's connections go through. The readers
-- of addresses and URLs, the resolver and the network are arguments; a connection that is open is
-- only its address.
pub mod Safe
use discord_chat_bot.Prelude.{
  ℕ, zero, suc, ◌+◌, ◌-◌, ◌*◌, Bool, true, false, not, ◌&&◌, ◌||◌, Option, none, some, ◌⊎◌, inl,
  inr, List, [], ◌∷◌, ◌++◌, leb, ◌==◌, if◌then◌else◌, ite, all, any, filter,
}
use discord_chat_bot.Text.{Text, codes, is_empty, strip, or_else, Text-discrete}

-- `s.partition(c)`: what stands before the first c, and behind it
unfoldable pub before : ℕ → Text → Text
before c [] = []
before c (d ∷ s) = let rest = before c s in if d == c then [] else d ∷ rest

unfoldable pub behind : ℕ → Text → Text
behind c [] = []
behind c (d ∷ s) = let rest = behind c s in if d == c then s else rest

unfoldable pub count : ℕ → Text → ℕ
count c [] = 0
count c (d ∷ s) = let rest = count c s in if d == c then suc rest else rest

abbrev pub is_digit : ℕ → Bool
is_digit c = leb 48 c && leb c 57

unfoldable pub value_of : ℕ → Text → ℕ
value_of n [] = n
value_of n (c ∷ s) = value_of (n * 10 + (c - 48)) s

-- the superscript digits of latin-1, which `isdigit` accepts and `int` does not
abbrev pub is_superscript : ℕ → Bool
is_superscript c = c == 178 || c == 179 || c == 185

-- `int(port) if port.isdigit() else default_port`, none where `int` raises
unfoldable pub port_or : ℕ → Text → Option ℕ
port_or default_port port =
    if not (is_empty port) && all (λ c. is_digit c || is_superscript c) port
    then (if all is_digit port then some (value_of 0 port) else none)
    else some default_port

abbrev pub with_host : Text → Option ℕ → Option (Text × ℕ)
with_host host none = none
with_host host (some port) = some (host, port)

abbrev pub behind_colon : Text → Text
behind_colon [] = []
behind_colon (c ∷ s) = if c == 58 then s else []

abbrev pub is_bracketed : Text → Bool
is_bracketed [] = false
is_bracketed (c ∷ s) = c == 91

abbrev pub rest_of : Text → Text
rest_of [] = []
rest_of (c ∷ s) = s

unfoldable pub split_host_port : Text → ℕ → Option (Text × ℕ)
split_host_port target default_port =
    if is_bracketed target
    then with_host (before 93 (rest_of target))
        (port_or default_port (behind_colon (behind 93 (rest_of target))))
    else if count 58 target == 1
    then with_host (before 58 target) (port_or default_port (behind 58 target))
    else some (target, default_port)

-- What `urlsplit` reads; `port` is none where asking for it raises.
pub record Url : Type 0 where
  pub scheme : Text
  pub hostname : Option Text
  pub port : Option (Option ℕ)
  pub path : Text
  pub query : Text

-- `resolve` is none if the name does not resolve, `connects` whether an address answers in time.
pub record Network : Type 0 where
  pub is_address : Text → Bool
  pub is_allowed : Text → Bool
  pub resolve : Text → ℕ → Option (List Text)
  pub connects : Text → ℕ → Bool
  pub urlsplit : Text → Option Url
  pub lower : Text → Text
  pub upper : Text → Text

-- The exceptions, as the answers they come to: Refused, and the others that are caught.
pub data Failure : Type 0 where
  forbidden bad_gateway : Failure

-- The addresses that a connection was tried to, and the one that it was made to.
pub record Opened : Type 0 where
  pub tried : List Text
  pub result : Failure ⊎ Text

unfoldable pub try_all : (Text → Bool) → List Text → Opened
try_all connects [] = record { tried = []; result = inl bad_gateway }
try_all connects (a ∷ rest) =
    let later = try_all connects rest in
    if connects a
    then record { tried = a ∷ []; result = inr a }
    else record { tried = a ∷ later.tried; result = later.result }

abbrev pub failed : Failure → Opened
failed f = record { tried = []; result = inl f }

module _ (net : Network) where
  unfoldable pub addresses : Text → ℕ → Option (List Text)
  addresses host port = if net.is_address host then some (host ∷ []) else net.resolve host port

  abbrev pub open_found : ℕ → Option (List Text) → Opened
  open_found port none = failed forbidden
  open_found port (some found) =
      if is_empty found || not (all net.is_allowed found)
      then failed forbidden
      else try_all (λ a. net.connects a port) found

  -- `_open`
  unfoldable pub open_host : Text → ℕ → Opened
  open_host host port = open_found port (addresses host port)

  abbrev pub hop_headers : List Text
  hop_headers =
      codes "proxy-connection"
      ∷ codes "proxy-authorization"
      ∷ codes "connection"
      ∷ codes "keep-alive"
      ∷ []

  -- the header's name is one of those that are for the proxy alone
  unfoldable pub is_hop : Text → Bool
  is_hop h =
      any (λ n. ite (Text-discrete n (net.lower (strip (before 58 h)))) true false) hop_headers

  unfoldable pub kept_headers : List Text → List Text
  kept_headers lines = filter (λ h. not (is_empty h) && not (is_hop h)) lines

  -- a port that is given and not 0, or 80
  abbrev pub port_of : Option ℕ → ℕ
  port_of none = 80
  port_of (some zero) = 80
  port_of (some (suc n)) = suc n

-- a request's first line, in its three parts, and its header lines
pub record Head : Type 0 where
  pub method : Text
  pub target : Text
  pub version : Text
  pub header_lines : List Text

abbrev pub query_part : Text → Text
query_part [] = []
query_part (c ∷ s) = 63 ∷ c ∷ s

-- What the client is sent, or the request that goes on.
pub data Reply : Type 0 where
  established : Reply
  forwarded : List Text → Reply
  answered : Failure → Reply

pub record Handled : Type 0 where
  pub tried : List Text
  pub reply : Reply

abbrev pub reply_with : Opened → Reply → Handled
reply_with o r = record {
  tried = o.tried;
  reply = elim o.result [ inl f ↦ answered f | inr a ↦ r ];
}

abbrev pub refuse : Failure → Handled
refuse f = record { tried = []; reply = answered f }

module _ (net : Network) where
  unfoldable pub request_lines : Head → Url → List Text
  request_lines h u =
      (h.method
        ++ (codes " "
            ++ (or_else u.path (codes "/") ++ (query_part u.query ++ (codes " " ++ h.version)))))
      ∷ (kept_headers net h.header_lines ++ codes "Connection: close" ∷ [] ∷ [] ∷ [])

  abbrev pub forward_to : Head → Url → Option Text → Option (Option ℕ) → Handled
  forward_to h u none port = refuse forbidden
  forward_to h u (some []) port = refuse forbidden
  forward_to h u (some (c ∷ s)) none = refuse bad_gateway
  forward_to h u (some (c ∷ s)) (some port) =
      reply_with (open_host net (c ∷ s) (port_of net port)) (forwarded (request_lines h u))

  unfoldable pub forward : Head → Option Url → Handled
  forward h none = refuse bad_gateway
  forward h (some u) =
      let to = forward_to h u u.hostname u.port in
      ite (Text-discrete u.scheme (codes "http")) to (refuse forbidden)

  abbrev pub tunnel_to : Option (Text × ℕ) → Handled
  tunnel_to none = refuse bad_gateway
  tunnel_to (some to) = reply_with (open_host net to.0 to.1) established

  -- `_handle`, of a head that was read: none if its first line has not three parts
  unfoldable pub handle : Option Head → Handled
  handle none = refuse bad_gateway
  handle (some h) =
      let tunnel = tunnel_to (split_host_port h.target 443) in
      ite (Text-discrete (net.upper h.method) (codes "CONNECT")) tunnel
        (forward h (net.urlsplit h.target))
