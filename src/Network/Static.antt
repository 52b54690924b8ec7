-- ===== src/Network/Static.antt =====
-- validate_static_ipv4 and describe_subnet of backend/app/services/network/validation.py.
use infra_ops.Prelude.{
  ℕ, suc, String, Bool, true, ◌&&◌, ◌||◌, not, List, [], ◌∷◌, ◌++◌, Option, none, some, strip,
  concat, str_mem, ltb, leb, ◌==◌, if◌then◌else◌,
}
use infra_ops.Prelude.Decimal.{show}
use infra_ops.Network.Address.{
  parse_ipv4, show_ipv4, network_address, broadcast_address, in_network,
}

pub record Issue : Type 0 where
  field : String
  message : String

-- `if test: issues.append(issue)`
abbrev pub issue_if : Bool → String → List String → List Issue
issue_if test name text = if test then record { field = name; message = concat text } ∷ [] else []

abbrev pub is_supported : ℕ → Bool
is_supported prefix = leb 8 prefix && leb prefix 32

unfoldable pub prefix_issues : ℕ → List Issue
prefix_issues prefix =
    issue_if (not (is_supported prefix)) "prefix"
      ("Prefix /" ∷ show prefix ∷ " is outside the supported 8–32 range." ∷ [])

-- The issue of a gateway that is no address; the checks go on without it.
abbrev pub gateway_syntax : String → Option ℕ → List Issue
gateway_syntax gateway none =
    issue_if true "gateway" ("'" ∷ gateway ∷ "' is not a valid IPv4 address." ∷ [])
gateway_syntax gateway (some gw) = []

abbrev with_prefixlen : ℕ → ℕ → String
with_prefixlen addr prefix =
    concat (show_ipv4 (network_address addr prefix) ∷ "/" ∷ show prefix ∷ [])

abbrev pub place_issues : ℕ → ℕ → ℕ → List Issue
place_issues addr prefix gw =
    if not (in_network gw addr prefix)
    then issue_if true "gateway" (
        "Gateway "
        ∷ show_ipv4 gw
        ∷ " is outside the "
        ∷ with_prefixlen addr prefix
        ∷ " subnet."
        ∷ [])
    else issue_if ((gw == network_address addr prefix) || (gw == broadcast_address addr prefix))
        "gateway" ("Gateway cannot be the network or broadcast address." ∷ [])

abbrev pub gateway_issues : ℕ → ℕ → Option ℕ → List Issue
gateway_issues addr prefix none = []
gateway_issues addr prefix (some gw) =
    place_issues addr prefix gw
    ++ issue_if (gw == addr) "gateway" ("Gateway must differ from the VM's own address." ∷ [])

unfoldable pub subnet_issues : ℕ → ℕ → Option ℕ → List Issue
subnet_issues addr prefix gw =
    if is_supported prefix
    then issue_if (addr == network_address addr prefix) "address"
        ("The address equals the network address." ∷ [])
      ++ (issue_if (addr == broadcast_address addr prefix) "address"
            ("The address equals the broadcast address." ∷ [])
          ++ gateway_issues addr prefix gw)
    else []

abbrev dns_field : ℕ → String
dns_field index = concat ("dns_servers[" ∷ show index ∷ "]" ∷ [])

-- What one DNS server adds to the issues, and the addresses seen with it.
abbrev pub server_issues : ℕ → List String → String → Option ℕ → List Issue
server_issues index seen dns none =
    issue_if true (dns_field index) ("'" ∷ dns ∷ "' is not a valid IPv4 address." ∷ [])
server_issues index seen dns (some n) =
    issue_if (str_mem (show_ipv4 n) ("0.0.0.0" ∷ "255.255.255.255" ∷ [])) (dns_field index)
      ("'" ∷ dns ∷ "' is not a usable DNS server address." ∷ [])
    ++ issue_if (str_mem (show_ipv4 n) seen) (dns_field index)
        ("Duplicate DNS server '" ∷ dns ∷ "'." ∷ [])

abbrev pub now_seen : List String → Option ℕ → List String
now_seen seen none = seen
now_seen seen (some n) = show_ipv4 n ∷ seen

-- The loop over enumerate(dns_servers, start=1).
unfoldable pub dns_issues : ℕ → List String → List String → List Issue
dns_issues index seen [] = []
dns_issues index seen (dns ∷ servers) =
    let parsed = parse_ipv4 (strip dns) in
    server_issues index seen dns parsed ++ dns_issues (suc index) (now_seen seen parsed) servers

abbrev pub issues_of : String → Option ℕ → ℕ → String → List String → List Issue
issues_of address none prefix gateway dns_servers =
    issue_if true "address" ("'" ∷ address ∷ "' is not a valid IPv4 address." ∷ [])
issues_of address (some addr) prefix gateway dns_servers =
    let gw = parse_ipv4 (strip gateway) in
    prefix_issues prefix
    ++ (gateway_syntax gateway gw ++ (subnet_issues addr prefix gw ++ dns_issues 1 [] dns_servers))

unfoldable pub validate_static_ipv4 : String → ℕ → String → List String → List Issue
validate_static_ipv4 address prefix gateway dns_servers =
    issues_of address (parse_ipv4 (strip address)) prefix gateway dns_servers

abbrev described : String → ℕ → Option ℕ → String
described address prefix none = concat (address ∷ "/" ∷ show prefix ∷ [])
described address prefix (some addr) =
    if ltb 32 prefix then concat (address ∷ "/" ∷ show prefix ∷ []) else with_prefixlen addr prefix

unfoldable pub describe_subnet : String → ℕ → String
describe_subnet address prefix = described address prefix (parse_ipv4 address)
