-- ===== src/Network/Usable.antt =====
-- What validate_static_ipv4 of backend/app/services/network/validation.py accepts, as arithmetic
-- on the addresses.
use infra_ops.Prelude.{
  ℕ, suc, ◌+◌, ◌-◌, ◌*◌, ◌/◌, ◌%◌, ◌≤◌, ◌<◌, String, ◌≡◌, ◌≢◌, refl, Bool, true, false, not, List,
  [], ◌∷◌, ◌++◌, Option, none, some, strip, concat, str_mem, str_eq, All, eq_refl, ◌==◌,
  if◌then◌else◌, arith, inl, inr, Bool-cases, sym, if_of_true, ◌||◌, ◌∙◌,
}
use mathlib.Core.Bool.{false≢true}
use native.Mathlib.Nat.{mod-lt, div-add-mod', mul-mod_left, one-le-pow}
use infra_ops.Network.Address.{
  parse_ipv4, show_ipv4, network_address, broadcast_address, in_network, subnet_size,
}
use infra_ops.Prelude.Decimal.{show}
use infra_ops.Network.Static.{
  Issue, issue_if, prefix_issues, gateway_syntax, subnet_issues, server_issues, now_seen,
  dns_issues, issues_of, validate_static_ipv4, is_supported,
}

-- A host address and its gateway, strictly inside the same aligned block of 2 ^ (32 - prefix).
abbrev pub AreHosts : ℕ → ℕ → ℕ → Type 0
AreHosts prefix a g =
    (base : ℕ) × (base % subnet_size prefix ≡ 0)
    × (base < a)
    × (a + 1 < base + subnet_size prefix)
    × (base < g)
    × (g + 1 < base + subnet_size prefix)
    × (a ≢ g)

-- The numbers of the servers, none of them 0.0.0.0 or 255.255.255.255, each once.
abbrev pub Servers : List String → List ℕ → Type 0
Servers [] [] = Unit
Servers (s ∷ ss) (n ∷ ns) =
    (parse_ipv4 (strip s) ≡ some n)
    × (n ≢ 0)
    × (n ≢ 4294967295)
    × All (λ m. n ≢ m) ns
    × Servers ss ns
Servers _ _ = ⊥

nil_parts : (xs ys : List Issue) → xs ++ ys ≡ [] → (xs ≡ []) × (ys ≡ [])
nil_parts [] ys h = (refl, h)
nil_parts (x ∷ xs) ys h = ground arith

quiet :
    (test : Bool) (name : String) (text : List String) → issue_if test name text ≡ [] → test ≡ false
quiet true name text h = ground arith
quiet false name text h = refl

aligned : (a size : ℕ) → (a - a % size) % size ≡ 0
aligned a size =
    let e : a - a % size ≡ a / size * size = omega (arith, div-add-mod' a size) in
    rw e (mul-mod_left (a / size) size)

hosts :
    (size a g : ℕ)
    → 0 < size
    → (a == a - a % size) ≡ false
    → (a == a - a % size + (size - 1)) ≡ false
    → (g - g % size == a - a % size) ≡ true
    → (g == a - a % size) ≡ false
    → (g == a - a % size + (size - 1)) ≡ false
    → (g == a) ≡ false
    → (base : ℕ) × (base % size ≡ 0)
      × (base < a)
      × (a + 1 < base + size)
      × (base < g)
      × (g + 1 < base + size)
      × (a ≢ g)
hosts size a g pos ha hb hn hc hd he =
    let ra : a % size < size = mod-lt a pos in
    let rg : g % size < size = mod-lt g pos in
    (
      a - a % size,
      aligned a size,
      ground arith,
      ground arith,
      ground arith,
      ground arith,
      ground arith,
    )

place_quiet :
    (inside net last : Bool) (name : String) (far near : List String)
    → (if not inside then issue_if true name far else issue_if (net || last) name near) ≡ []
    → (inside ≡ true) × (net ≡ false) × (last ≡ false)
place_quiet false net last name far near h = ground arith
place_quiet true true last name far near h = ground arith
place_quiet true false true name far near h = ground arith
place_quiet true false false name far near h = (refl, refl, refl)

subnet_size-positive : (p : ℕ) → 0 < subnet_size p
subnet_size-positive p = one-le-pow (32 - p) 2 (omega arith)

-- What the checks on the subnet say of the address and the gateway.
subnet_hosts :
    (a p g : ℕ) → is_supported p ≡ true → subnet_issues a p (some g) ≡ [] → AreHosts p a g
unfolding subnet_issues network_address broadcast_address in_network
subnet_hosts a p g ok h =
    let q = if_of_true (is_supported p) _ _ ok in
    let parts = nil_parts _ _ (sym q ∙ h) in
    let more = nil_parts _ _ parts.1 in
    let last = nil_parts _ _ more.1 in
    let place = place_quiet _ _ _ _ _ _ last.0 in
    hosts (subnet_size p) a g (subnet_size-positive p) (quiet _ _ _ parts.0) (quiet _ _ _ more.0)
      place.0 place.1 place.2 (quiet _ _ _ last.1)

-- A block with two hosts strictly inside it is larger than that of a /31.
hosts-prefix : (p a g : ℕ) → p ≤ 32 → AreHosts p a g → p ≤ 30
hosts-prefix p a g h (base, e, l, u, m, v, d) = elim (Bool-cases (p == 31)) [
  | inl x ↦
      let q : p ≡ 31 = ground arith in
      let size : subnet_size p ≡ 2 = rw q refl in absurd (omega arith)
  | inr x ↦ elim (Bool-cases (p == 32)) [
    | inl y ↦
        let q : p ≡ 32 = ground arith in
        let size : subnet_size p ≡ 1 = rw q refl in absurd (omega arith)
    | inr y ↦ ground arith
  ]
]

-- Addresses whose text is not among those seen.
abbrev Unseen : List String → List ℕ → Type 0
Unseen seen ns = All (λ n. str_mem (show_ipv4 n) seen ≡ false) ns

is_fresh :
    (n m : ℕ) (seen : List String) → str_mem (show_ipv4 m) (show_ipv4 n ∷ seen) ≡ false → n ≢ m
unfolding str_mem
is_fresh n m seen h e =
    let q : str_eq (show_ipv4 n) (show_ipv4 m) ≡ true = rw e (eq_refl (show_ipv4 m)) in ground arith

was_unseen :
    (n m : ℕ) (seen : List String)
    → str_mem (show_ipv4 m) (show_ipv4 n ∷ seen) ≡ false
    → str_mem (show_ipv4 m) seen ≡ false
unfolding str_mem
was_unseen n m seen h = ground arith

All-fresh :
    (n : ℕ) (seen : List String) (ns : List ℕ)
    → Unseen (show_ipv4 n ∷ seen) ns
    → All (λ m. n ≢ m) ns
All-fresh n seen [] h = tt
All-fresh n seen (m ∷ ns) (h, hs) = (is_fresh n m seen h, All-fresh n seen ns hs)

all-Unseen :
    (n : ℕ) (seen : List String) (ns : List ℕ) → Unseen (show_ipv4 n ∷ seen) ns → Unseen seen ns
all-Unseen n seen [] h = tt
all-Unseen n seen (m ∷ ns) (h, hs) = (was_unseen n m seen h, all-Unseen n seen ns hs)

not_reserved :
    (n k : ℕ)
    → str_mem (show_ipv4 k) ("0.0.0.0" ∷ "255.255.255.255" ∷ []) ≡ true
    → str_mem (show_ipv4 n) ("0.0.0.0" ∷ "255.255.255.255" ∷ []) ≡ false
    → n ≢ k
not_reserved n k a b e =
    let q : str_mem (show_ipv4 k) ("0.0.0.0" ∷ "255.255.255.255" ∷ []) ≡ false = rw (sym e) b in
    false≢true (sym q ∙ a)

zero_reserved : str_mem (show_ipv4 0) ("0.0.0.0" ∷ "255.255.255.255" ∷ []) ≡ true
unfolding str_mem show_ipv4 show concat
zero_reserved = refl

last_reserved : str_mem (show_ipv4 4294967295) ("0.0.0.0" ∷ "255.255.255.255" ∷ []) ≡ true
unfolding str_mem show_ipv4 show concat
last_reserved = refl

with_server :
    (i : ℕ) (seen : List String) (d : String) (ds : List String) (o : Option ℕ)
    → parse_ipv4 (strip d) ≡ o
    → server_issues i seen d o ≡ []
    → (ns : List ℕ) → Servers ds ns
    → Unseen (now_seen seen o) ns
    → (ms : List ℕ) × Servers (d ∷ ds) ms × Unseen seen ms
with_server i seen d ds none e h ns s u = ground arith
with_server i seen d ds (some n) e h ns s u =
    let parts = nil_parts _ _ h in
    let usable = quiet _ _ _ parts.0 in
    (
      n ∷ ns,
      (
        e,
        not_reserved n 0 zero_reserved usable,
        not_reserved n 4294967295 last_reserved usable,
        All-fresh n seen ns u,
        s,
      ),
      (quiet _ _ _ parts.1, all-Unseen n seen ns u),
    )

dns_servers_lem :
    (i : ℕ) (seen ds : List String)
    → dns_issues i seen ds ≡ []
    → (ns : List ℕ) × Servers ds ns × Unseen seen ns
unfolding dns_issues
dns_servers_lem i seen [] h = ([], tt, tt)
dns_servers_lem i seen (d ∷ ds) h =
    let parts = nil_parts _ _ h in
    let (ns, s, u) = dns_servers_lem (suc i) (now_seen seen (parse_ipv4 (strip d))) ds parts.1 in
    with_server i seen d ds (parse_ipv4 (strip d)) refl parts.0 ns s u

prefix_ok : (p : ℕ) → prefix_issues p ≡ [] → is_supported p ≡ true
unfolding prefix_issues
prefix_ok p h = ground (arith, quiet _ _ _ h)

with_gateway :
    (address gateway : String) (p a : ℕ) (ds : List String) (o : Option ℕ)
    → parse_ipv4 (strip gateway) ≡ o
    → gateway_syntax gateway o ≡ []
    → is_supported p ≡ true
    → subnet_issues a p o ≡ []
    → (g : ℕ) × (parse_ipv4 (strip gateway) ≡ some g) × AreHosts p a g
with_gateway address gateway p a ds none e h ok rest = ground arith
with_gateway address gateway p a ds (some g) e h ok rest = (g, e, subnet_hosts a p g ok rest)

accepted :
    (address gateway : String) (p : ℕ) (ds : List String) (o : Option ℕ)
    → parse_ipv4 (strip address) ≡ o
    → issues_of address o p gateway ds ≡ []
    → (a : ℕ) × (g : ℕ) × (ns : List ℕ) × (parse_ipv4 (strip address) ≡ some a)
      × (parse_ipv4 (strip gateway) ≡ some g)
      × (8 ≤ p)
      × (p ≤ 30)
      × AreHosts p a g
      × Servers ds ns
accepted address gateway p ds none e h = ground arith
accepted address gateway p ds (some a) e h =
    let prefix = nil_parts _ _ h in
    let syntax = nil_parts _ _ prefix.1 in
    let rest = nil_parts _ _ syntax.1 in
    let ok = prefix_ok p prefix.0 in
    let (g, eg, inside) = with_gateway address gateway p a ds _ refl syntax.0 ok rest.0 in
    let (ns, servers, unseen) = dns_servers_lem 1 [] ds rest.1 in
    (a, g, ns, e, eg, ground arith, hosts-prefix p a g (ground arith) inside, inside, servers)

-- Settings that validate_static_ipv4 reports no issue for are usable: the address and the
-- gateway parse, the prefix length is between 8 and 30, both addresses lie strictly between the
-- first and the last address of one block of 2 ^ (32 - prefix) addresses that starts at a
-- multiple of its size, they differ, and the DNS servers parse to distinct addresses other than
-- 0.0.0.0 and 255.255.255.255. In particular no /31 or /32 passes.
pub validate_static_ipv4_lem :
    (address : String) (prefix : ℕ) (gateway : String) (dns_servers : List String)
    → validate_static_ipv4 address prefix gateway dns_servers ≡ []
    → (a : ℕ) × (g : ℕ) × (ns : List ℕ) × (parse_ipv4 (strip address) ≡ some a)
      × (parse_ipv4 (strip gateway) ≡ some g)
      × (8 ≤ prefix)
      × (prefix ≤ 30)
      × AreHosts prefix a g
      × Servers dns_servers ns
unfolding validate_static_ipv4
validate_static_ipv4_lem address prefix gateway dns_servers h =
    accepted address gateway prefix dns_servers (parse_ipv4 (strip address)) refl h
