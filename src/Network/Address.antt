-- ===== src/Network/Address.antt =====
-- What backend/app/services/network/validation.py and backend/app/schemas/provisioning.py use
-- of Python's `ipaddress`: an IPv4 address is its number below 2 ^ 32.
use Prim.Native.Char.{code}
use Prim.Native.String
use infra_ops.Prelude.{
  ℕ, ◌+◌, ◌-◌, ◌*◌, ◌/◌, ◌%◌, ◌^◌, String, ◌≡◌, refl, Bool, false, ◌&&◌, ◌||◌, not, List, [], ◌∷◌,
  Option, none, some, concat, codes, all, length, ltb, leb, ◌==◌, if◌then◌else◌,
}
use infra_ops.Prelude.Decimal.{show}

abbrev pub to_first : String → List String → List String
to_first c [] = c ∷ []
to_first c (w ∷ ws) = String.◌++◌ c w ∷ ws

-- `s.split(sep)` of a separator of one character.
unfoldable pub split_on : ℕ → String → List String
split_on sep String.[] = "" ∷ []
split_on sep (String.◌∷◌ c s) =
    let rest = split_on sep s in
    if code c == sep then "" ∷ rest else to_first (String.◌∷◌ c String.[]) rest

abbrev is_digit : ℕ → Bool
is_digit c = leb b'0' c && leb c b'9'

-- `int(s)` of ASCII digits.
abbrev value_from : ℕ → List ℕ → ℕ
value_from acc [] = acc
value_from acc (c ∷ cs) = value_from (acc * 10 + (c - b'0')) cs

abbrev has_leading_zero : List ℕ → Bool
has_leading_zero (c ∷ d ∷ cs) = c == b'0'
has_leading_zero _ = false

abbrev octet_of : List ℕ → Option ℕ
octet_of [] = none
octet_of (c ∷ cs) =
    let text = c ∷ cs in
    if not (all is_digit text)
      || ltb 3 (length text)
      || has_leading_zero text
      || ltb 255 (value_from 0 text)
    then none
    else some (value_from 0 text)

unfoldable pub parse_octet : String → Option ℕ
parse_octet s = octet_of (codes s)

abbrev join_octets : Option ℕ → Option ℕ → Option ℕ → Option ℕ → Option ℕ
join_octets (some a) (some b) (some c) (some d) = some (((a * 256 + b) * 256 + c) * 256 + d)
join_octets _ _ _ _ = none

abbrev address_of : List String → Option ℕ
address_of (a ∷ b ∷ c ∷ d ∷ []) =
    join_octets (parse_octet a) (parse_octet b) (parse_octet c) (parse_octet d)
address_of _ = none

-- int(ipaddress.IPv4Address(s)), with none for the ValueError.
unfoldable pub parse_ipv4 : String → Option ℕ
unfolding split_on parse_octet
parse_ipv4 s = address_of (split_on b'.' s)

-- str(ipaddress.IPv4Address(n))
unfoldable pub show_ipv4 : ℕ → String
unfolding show
show_ipv4 n = concat (
    show (n / 16777216)
    ∷ "."
    ∷ show (n / 65536 % 256)
    ∷ "."
    ∷ show (n / 256 % 256)
    ∷ "."
    ∷ show (n % 256)
    ∷ [])

-- The number of addresses of a /prefix network.
abbrev pub subnet_size : ℕ → ℕ
subnet_size prefix = 2 ^ (32 - prefix)

-- ipaddress.ip_network(f"{a}/{prefix}", strict=False).network_address
unfoldable pub network_address : ℕ → ℕ → ℕ
network_address a prefix = a - a % subnet_size prefix

-- The network's broadcast_address.
unfoldable pub broadcast_address : ℕ → ℕ → ℕ
unfolding network_address
broadcast_address a prefix = network_address a prefix + (subnet_size prefix - 1)

-- `b in network`, where the network is that of `a`.
unfoldable pub in_network : ℕ → ℕ → ℕ → Bool
unfolding network_address
in_network b a prefix = network_address b prefix == network_address a prefix

parse_ipv4_test : parse_ipv4 "10.20.0.255" ≡ some 169083135
unfolding parse_ipv4 split_on parse_octet
parse_ipv4_test = refl

show_ipv4_test : show_ipv4 169083135 ≡ "10.20.0.255"
unfolding show_ipv4 show concat
show_ipv4_test = refl

parse_ipv4_leading : parse_ipv4 "10.020.0.1" ≡ none
unfolding parse_ipv4 split_on parse_octet
parse_ipv4_leading = refl
