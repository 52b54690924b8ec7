-- ===== src/Requests/Validate.antt =====
-- The validators of backend/app/schemas/provisioning.py.
use infra_ops.Prelude.{
  ℕ, String, Bool, true, false, not, List, [], ◌∷◌, Option, none, some, concat, strip, str_mem,
  ◌==◌,
}
use infra_ops.Prelude.Decimal.{show}
use infra_ops.Network.Address.{
  parse_ipv4, show_ipv4, network_address, broadcast_address, in_network,
}
use infra_ops.Requests.Schema.{Ipv4Config}

-- What a validator returns, or the message of its ValueError.
pub data Checked {ℓ} (A : Type ℓ) : Type ℓ where
  accepted : A → Checked A
  refused : String → Checked A

infixl 5 ◌>>=◌ ◌>>◌
abbrev pub ◌>>=◌ {ℓ κ} : {A : Type ℓ} {B : Type κ} → Checked A → (A → Checked B) → Checked B
accepted a >>= f = f a
refused e >>= f = refused e

abbrev pub ◌>>◌ {ℓ} : {B : Type ℓ} → Checked (Unit {0}) → Checked B → Checked B
m >> k = m >>= λ _. k

-- `if test: raise ValueError(message)`
abbrev pub refuse_if : Bool → String → Checked (Unit {0})
refuse_if true message = refused message
refuse_if false message = accepted tt

abbrev shown_address : String → String → Option ℕ → Checked String
shown_address value field none =
    refused (concat (field ∷ ": '" ∷ value ∷ "' is not a valid IPv4 address." ∷ []))
shown_address value field (some n) = accepted (show_ipv4 n)

-- _validate_ipv4
unfoldable pub validate_ipv4 : String → String → Checked String
validate_ipv4 value field = shown_address value field (parse_ipv4 (strip value))

-- The loop over dns_servers.
unfoldable pub normalize_dns : List String → List String → Checked (List String)
unfolding validate_ipv4
normalize_dns seen [] = accepted []
normalize_dns seen (dns ∷ servers) = validate_ipv4 dns "DNS server" >>= λ normalized.
    refuse_if (str_mem normalized seen) (concat ("Duplicate DNS server: " ∷ normalized ∷ []))
    >> (normalize_dns (normalized ∷ seen) servers >>= λ rest. accepted (normalized ∷ rest))

abbrev number_of : Option ℕ → ℕ
number_of none = 0
number_of (some n) = n

-- The checks of the addresses in their normal form.
abbrev check_subnet : Ipv4Config → Checked (Unit {0})
check_subnet c =
    let addr = number_of (parse_ipv4 c.address) in
    let gw = number_of (parse_ipv4 c.gateway) in
    refuse_if (addr == network_address addr c.prefix)
      "IP address equals the network address and cannot be assigned to a host."
    >> (refuse_if (addr == broadcast_address addr c.prefix)
          "IP address equals the broadcast address and cannot be assigned to a host."
        >> (refuse_if (not (in_network gw addr c.prefix)) (
              concat (
                "Default gateway "
                ∷ c.gateway
                ∷ " is outside the "
                ∷ show_ipv4 (network_address addr c.prefix)
                ∷ "/"
                ∷ show c.prefix
                ∷ " subnet."
                ∷ []))
            >> refuse_if (gw == addr) "Default gateway must differ from the VM's own IP address."))

-- Ipv4Config._validate_addresses
unfoldable pub validate_addresses : Ipv4Config → Checked Ipv4Config
unfolding validate_ipv4 normalize_dns
validate_addresses c = validate_ipv4 c.address "IP address" >>= λ address.
    validate_ipv4 c.gateway "Default gateway" >>= λ gateway.
    let normal = record c { address = address; gateway = gateway } in
    check_subnet normal
    >> (normalize_dns [] c.dns_servers >>= λ dns. accepted (record normal { dns_servers = dns }))
