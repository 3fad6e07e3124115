-- ===== src/Tests/EgressRuns.antt =====
-- A name with a private address among its own, and one that is public.
use discord_chat_bot.Prelude.{
  List, inl, ◌↔◌, ◌⊎◌, ◌≡◌, refl, Bool, true, false, not, none, some, [], ◌∷◌, ◌++◌, if◌then◌else◌,
  ite, All, ℕ_discrete,
}
use discord_chat_bot.Text.{Text, codes, is_space, lstrip, rstrip, strip, join, Text-discrete}
use discord_chat_bot.Egress.{
  before, behind, count, value_of, port_or, split_host_port, Url, Network, forbidden, bad_gateway,
  try_all, addresses, open_host, is_hop, kept_headers, Head, established, forwarded, answered,
  request_lines, forward, handle,
}
use discord_chat_bot.Egress.Safe.{HasRefused, IsAllowed, handle-IsAllowed, open_host-refuses}

program : Unit {0}
unfolding is_space lstrip rstrip strip join Text-discrete ℕ_discrete before behind count value_of
    port_or split_host_port try_all addresses open_host is_hop kept_headers request_lines forward
    handle
program = tt

abbrev private_one : Text
private_one = codes "10.0.0.1"

abbrev public_one : Text
public_one = codes "9.9.9.9"

abbrev is_text : Text → Text → Bool
is_text a b = ite (Text-discrete a b) true false

abbrev page : Url
page = record {
  scheme = codes "http";
  hostname = some (codes "good");
  port = some none;
  path = [];
  query = codes "q";
}

abbrev net : Network
net = record {
  is_address = λ s. false;
  is_allowed = λ s. not (is_text s private_one);
  resolve = λ host port.
      if is_text host (codes "good")
      then some (public_one ∷ [])
      else some (public_one ∷ private_one ∷ []);
  connects = λ s port. true;
  urlsplit = λ s. some page;
  lower = λ s. s;
  upper = λ s. s;
}

abbrev tunnel : Text → Head
tunnel target = record {
  method = codes "CONNECT";
  target = target;
  version = codes "HTTP/1.1";
  header_lines = [];
}

abbrev fetch : Head
fetch = record {
  method = codes "GET";
  target = codes "http://good?q";
  version = codes "HTTP/1.1";
  header_lines = codes "connection: close" ∷ codes "accept: text" ∷ [];
}

split_test :
    (split_host_port (codes "example.com:8443") 443 ≡ some (codes "example.com", 8443))
    × (split_host_port (codes "[::1]:80") 443 ≡ some (codes "::1", 80))
    × (split_host_port (codes "example.com") 443 ≡ some (codes "example.com", 443))
    × (split_host_port (codes "example.com:" ++ (178 ∷ [])) 443 ≡ none)
unfolding program
split_test = (refl, refl, refl, refl)

handle_test :
    (handle net (some (tunnel (codes "evil:443")))
      ≡ record { tried = []; reply = answered forbidden })
    × (handle net (some (tunnel (codes "good:443")))
        ≡ record { tried = public_one ∷ []; reply = established })
    × (handle net (some fetch) ≡ record {
      tried = public_one ∷ [];
      reply = forwarded (
          codes "GET /?q HTTP/1.1"
          ∷ codes "accept: text"
          ∷ codes "Connection: close"
          ∷ []
          ∷ []
          ∷ []);
    })
    × (handle net none ≡ record { tried = []; reply = answered bad_gateway })
unfolding program
handle_test = (refl, refl, refl, refl)

handle-IsAllowed_example : All (IsAllowed net) (handle net (some fetch)).tried
handle-IsAllowed_example = handle-IsAllowed net (some fetch)

evil_found : addresses net (codes "evil") 443 ≡ some (public_one ∷ private_one ∷ [])
unfolding program
evil_found = refl

abbrev evil_ones : List Text
evil_ones = public_one ∷ private_one ∷ []

open_host-refuses_example :
    ((open_host net (codes "evil") 443).result ≡ inl forbidden
      ↔ ((evil_ones ≡ []) ⊎ HasRefused net evil_ones))
    × ((evil_ones ≡ []) ⊎ HasRefused net evil_ones → (open_host net (codes "evil") 443).tried ≡ [])
open_host-refuses_example = open_host-refuses net (codes "evil") 443 evil_ones evil_found
