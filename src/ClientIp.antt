-- ===== src/ClientIp.antt =====
-- backend/app/core/client_ip.py: the address and the scheme of a client behind proxies. The addresses
-- of both families are a parameter: how a text parses, how an address prints, and whether it is
-- in one of the trusted networks.
pub mod Forged
use infra_ops.Prelude.{
  String, Bool, true, false, ◌&&◌, ◌||◌, not, List, [], ◌∷◌, ◌++◌, Option, none, some, strip,
  str_eq, truthy_text, lower, any, codes, filter_if, map, if◌then◌else◌,
}
use infra_ops.Network.Address.{split_on}
use infra_ops.Repository.Table.{codes_eq}
use infra_ops.Requests.Letters.{lower_text}

abbrev pub reversed : List String → List String
reversed [] = []
reversed (x ∷ xs) = reversed xs ++ x ∷ []

-- [hop.strip() for hop in forwarded_for.split(",") if hop.strip()]
unfoldable pub hops_of : String → List String
hops_of header = filter_if truthy_text (map strip (split_on b',' header))

module _ {A : Type 0} (ip_address : String → Option A) (text_of : A → String)
    (in_networks : A → Bool) where
  abbrev trusted_address : Option A → Bool
  trusted_address none = false
  trusted_address (some a) = in_networks a

  -- _is_trusted
  abbrev pub is_trusted : String → Bool
  is_trusted address = trusted_address (ip_address address)

  abbrev text_if : Option A → Option String
  text_if none = none
  text_if (some a) = some (text_of a)

  -- _valid_ip
  abbrev pub valid_ip : String → Option String
  valid_ip value = text_if (ip_address (strip value))

  abbrev pub walk_on : String → Option String → Option String → Option String
  walk_on peer none rest = some peer
  walk_on peer (some address) rest = if is_trusted address then rest else some address

  -- The loop over the hops from the right, with what is returned when it ends.
  unfoldable pub walk : String → Option String → List String → Option String
  walk peer last [] = last
  walk peer last (hop ∷ hops) = walk_on peer (valid_ip hop) (walk peer last hops)

  abbrev pub leftmost : String → List String → Option String
  leftmost peer [] = some peer
  leftmost peer (hop ∷ hops) = valid_ip hop

  abbrev pub from_hops : String → List String → Option String
  from_hops peer hops = walk peer (leftmost peer hops) (reversed hops)

  abbrev pub from_header : String → Option String → Option String
  from_header peer none = some peer
  from_header peer (some header) =
      if not (truthy_text header) || not (is_trusted peer)
      then some peer
      else from_hops peer (hops_of header)

  unfoldable pub resolve_client_ip : Option String → Option String → Option String
  unfolding walk hops_of
  resolve_client_ip none forwarded_for = none
  resolve_client_ip (some peer) forwarded_for = from_header peer forwarded_for

  abbrev first_part : List String → String
  first_part [] = ""
  first_part (p ∷ ps) = p

  abbrev known_scheme : String → String → String
  known_scheme proto scheme = if str_eq proto "http" || str_eq proto "https" then proto else scheme

  abbrev from_proto : String → String → Option String → String
  from_proto peer scheme none = scheme
  from_proto peer scheme (some forwarded) =
      if truthy_text peer && truthy_text forwarded && is_trusted peer
      then known_scheme (lower_text (strip (first_part (split_on b',' forwarded)))) scheme
      else scheme

  -- resolve_scheme
  unfoldable pub resolve_scheme : Option String → Option String → String → String
  resolve_scheme none forwarded_proto scheme = scheme
  resolve_scheme (some peer) forwarded_proto scheme = from_proto peer scheme forwarded_proto

module _ {N : Type 0} (ip_network : String → Option N) where
  abbrev and_networks : N → Option (List N) → Option (List N)
  and_networks network none = none
  and_networks network (some networks) = some (network ∷ networks)

  abbrev with_network : Option N → Option (List N) → Option (List N)
  with_network none rest = none
  with_network (some network) rest = and_networks network rest

  abbrev networks_of : List String → Option (List N)
  networks_of [] = some []
  networks_of (entry ∷ entries) = with_network (ip_network entry) (networks_of entries)

  -- _parse_networks; `none` is the ValueError that ip_network raises.
  abbrev pub parse_networks : String → Option (List N)
  parse_networks raw = networks_of (filter_if truthy_text (map strip (split_on b',' raw)))

module _ {A N : Type 0} (ip_address : String → Option A) (text_of : A → String)
    (ip_network : String → Option N) (contains : N → A → Bool) where
  abbrev pub in_any : List N → A → Bool
  in_any networks a = any (λ network. contains network a) networks

  abbrev client_ip_in : Option (List N) → Option String → Option String → Option (Option String)
  client_ip_in none peer forwarded_for = none
  client_ip_in (some networks) peer forwarded_for =
      some (resolve_client_ip ip_address text_of (in_any networks) peer forwarded_for)

  -- client_ip_from_request, with the setting, the peer and the header of the request
  unfoldable pub client_ip_from_request :
      String → Option String → Option String → Option (Option String)
  client_ip_from_request trusted_cidrs peer forwarded_for =
      client_ip_in (parse_networks ip_network trusted_cidrs) peer forwarded_for
