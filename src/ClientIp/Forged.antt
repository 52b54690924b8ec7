-- ===== src/ClientIp/Forged.antt =====
-- A client cannot change the address that backend/app/core/client_ip.py finds by what it writes in
-- front of the header.
use Prim.Native.Char.{code}
use Prim.Native.String
use infra_ops.Prelude.{
  ℕ, String, ◌≡◌, refl, ap, sym, ◌∙◌, Bool, true, ◌||◌, not, List, [], ◌∷◌, ◌++◌, Option, none,
  some, strip, truthy_text, any, filter_if, map, arith, Bool-cases, if_of_true, if_of_false, inl,
  inr, ◌==◌,
}
use mathlib.Core.List.{append_assoc, append-nil}
use text.Mathlib.TextLemmas.{nil-append, cons-append}
use infra_ops.Network.Address.{split_on, to_first}
use infra_ops.Requests.Names.{cons_truthy}
use infra_ops.ClientIp.{
  reversed, hops_of, is_trusted, valid_ip, walk_on, walk, leftmost, from_hops, resolve_client_ip,
  parse_networks, in_any, client_ip_from_request,
}

reversed-append : (xs ys : List String) → reversed (xs ++ ys) ≡ reversed ys ++ reversed xs
reversed-append [] ys = sym (append-nil (reversed ys))
reversed-append (x ∷ xs) ys =
    ap (λ l. l ++ x ∷ []) (reversed-append xs ys)
    ∙ append_assoc (reversed ys) (reversed xs) (x ∷ [])

any-append : (p : String → Bool) (xs ys : List String) → any p (xs ++ ys) ≡ (any p xs || any p ys)
any-append p [] ys = refl
any-append p (x ∷ xs) ys = ground (arith, any-append p xs ys)

any-reversed : (p : String → Bool) (xs : List String) → any p (reversed xs) ≡ any p xs
any-reversed p [] = refl
any-reversed p (x ∷ xs) = ground (arith, any-append p (reversed xs) (x ∷ []), any-reversed p xs)

filter-append :
    (p : String → Bool) (xs ys : List String)
    → filter_if p (xs ++ ys) ≡ filter_if p xs ++ filter_if p ys
filter-append p [] ys = refl
filter-append p (x ∷ xs) ys = elim (Bool-cases (p x)) [
  | inl q ↦ rw (q, filter-append p xs ys) refl
  | inr q ↦ rw (q, filter-append p xs ys) refl
]

map-append : (f : String → String) (xs ys : List String) → map f (xs ++ ys) ≡ map f xs ++ map f ys
map-append f [] ys = refl
map-append f (x ∷ xs) ys = ap (λ l. f x ∷ l) (map-append f xs ys)

split_on-cons :
    (sep : ℕ) (s : String) → (w : String) × (ws : List String) × (split_on sep s ≡ w ∷ ws)
unfolding split_on
split_on-cons sep String.[] = ("", [], refl)
split_on-cons sep (String.◌∷◌ c s) =
    let (w, ws, e) = split_on-cons sep s in
    elim (Bool-cases (code c == sep)) [
      | inl q ↦ ("", split_on sep s, if_of_true _ _ _ q)
      | inr q ↦ (
        String.◌++◌ (String.◌∷◌ c String.[]) w,
        ws,
        if_of_false _ _ _ q ∙ ap (to_first (String.◌∷◌ c String.[])) e,
      )
    ]

to_first-append :
    (c : String) (w : String) (ws vs xs : List String)
    → xs ≡ w ∷ ws
    → to_first c (xs ++ vs) ≡ to_first c xs ++ vs
to_first-append c w ws vs [] e = ground arith
to_first-append c w ws vs (x ∷ xs) e = refl

-- A text that goes on after a comma is split there.
split_on-comma :
    (s t : String)
    → split_on b',' (String.◌++◌ s (String.◌∷◌ "," t)) ≡ split_on b',' s ++ split_on b',' t
unfolding split_on
split_on-comma String.[] t = rw (nil-append (String.◌∷◌ "," t)) refl
split_on-comma (String.◌∷◌ c s) t =
    let ih = split_on-comma s t in
    let (w, ws, e) = split_on-cons b',' s in
    rw (cons-append c s (String.◌∷◌ "," t)) (elim (Bool-cases (code c == b',')) [
      | inl q ↦ rw (q, ih) refl
      | inr q ↦
          rw (q, ih)
            (to_first-append (String.◌∷◌ c String.[]) w ws (split_on b',' t) (split_on b',' s) e)
    ])

hops_of-comma :
    (forged header : String)
    → hops_of (String.◌++◌ forged (String.◌∷◌ "," header)) ≡ hops_of forged ++ hops_of header
unfolding hops_of
hops_of-comma forged header =
    rw
      (
        split_on-comma forged header,
        map-append strip (split_on b',' forged) (split_on b',' header),
        filter-append truthy_text (map strip (split_on b',' forged))
            (map strip (split_on b',' header)),
      )
      refl

truthy_text-comma : (s t : String) → truthy_text (String.◌++◌ s (String.◌∷◌ "," t)) ≡ true
truthy_text-comma String.[] t = rw (nil-append (String.◌∷◌ "," t)) (cons_truthy "," t)
truthy_text-comma (String.◌∷◌ c s) t =
    rw (cons-append c s (String.◌∷◌ "," t)) (cons_truthy c (String.◌++◌ s (String.◌∷◌ "," t)))

-- A header with a hop is not empty.
any-hops_of :
    (p : String → Bool) (header : String)
    → any p (hops_of header) ≡ true
    → truthy_text header ≡ true
unfolding hops_of split_on strip
any-hops_of p String.[] h = ground (arith, h)
any-hops_of p (String.◌∷◌ c s) h = cons_truthy c s

module _ {A : Type 0} (ip_address : String → Option A) (text_of : A → String)
    (in_networks : A → Bool) where
  -- Whether the walk from the right ends at this address.
  abbrev ends_at : Option String → Bool
  ends_at none = true
  ends_at (some address) = not (is_trusted ip_address text_of in_networks address)

  abbrev pub stops : String → Bool
  stops hop = ends_at (valid_ip ip_address text_of in_networks hop)

  walk_on-ends :
      (peer : String) (a : Option String) (r s : Option String)
      → ends_at a ≡ true
      → walk_on ip_address text_of in_networks peer a r
        ≡ walk_on ip_address text_of in_networks peer a s
  walk_on-ends peer none r s h = refl
  walk_on-ends peer (some address) r s h =
      elim (Bool-cases (is_trusted ip_address text_of in_networks address)) [
        | inl q ↦ ground (arith, h, q)
        | inr q ↦ rw (q) refl
      ]

  -- What is left of a hop where the walk ends is not looked at.
  walk-append :
      (peer : String) (l k : Option String) (xs ys : List String)
      → any stops xs ≡ true
      → walk ip_address text_of in_networks peer l (xs ++ ys)
        ≡ walk ip_address text_of in_networks peer k xs
  unfolding walk
  walk-append peer l k [] ys h = ground (arith, h)
  walk-append peer l k (x ∷ xs) ys h = elim (Bool-cases (stops x)) [
    | inl q ↦
        walk_on-ends peer (valid_ip ip_address text_of in_networks x)
          (walk ip_address text_of in_networks peer l (xs ++ ys))
          (walk ip_address text_of in_networks peer k xs) q
    | inr q ↦
        ap (walk_on ip_address text_of in_networks peer (valid_ip ip_address text_of in_networks x))
          (walk-append peer l k xs ys (sym (ap (λ b. b || any stops xs) q) ∙ h))
  ]

  from_hops-append :
      (peer : String) (xs ys : List String)
      → any stops ys ≡ true
      → from_hops ip_address text_of in_networks peer (xs ++ ys)
        ≡ from_hops ip_address text_of in_networks peer ys
  from_hops-append peer xs ys h = rw (reversed-append xs ys) (
      walk-append peer (leftmost ip_address text_of in_networks peer (xs ++ ys))
        (leftmost ip_address text_of in_networks peer ys) (reversed ys) (reversed xs)
        (any-reversed stops ys ∙ h))

  resolve_client_ip-forged :
      (peer forged header : String)
      → any stops (hops_of header) ≡ true
      → resolve_client_ip ip_address text_of in_networks
          (some peer)
          (some (String.◌++◌ forged (String.◌∷◌ "," header)))
        ≡ resolve_client_ip ip_address text_of in_networks (some peer) (some header)
  unfolding resolve_client_ip
  resolve_client_ip-forged peer forged header h =
      rw
        (
          truthy_text-comma forged header,
          any-hops_of stops header h,
          hops_of-comma forged header,
          from_hops-append peer (hops_of forged) (hops_of header) h,
        )
        refl

module _ {A N : Type 0} (ip_address : String → Option A) (text_of : A → String)
    (ip_network : String → Option N) (contains : N → A → Bool) where
  -- If the setting parses to networks, and some hop of a header is not an address or is in none of
  -- the networks, then a client that writes any text in front of the header, with a comma between
  -- them, leaves the address that is found for its request as it is.
  pub client_ip_from_request-forged :
      (trusted_cidrs peer forged header : String) (networks : List N)
      → parse_networks ip_network trusted_cidrs ≡ some networks
      → any
          (stops ip_address text_of (in_any ip_address text_of ip_network contains networks))
          (hops_of header)
        ≡ true
      → client_ip_from_request ip_address text_of ip_network contains trusted_cidrs
          (some peer)
          (some (String.◌++◌ forged (String.◌∷◌ "," header)))
        ≡ client_ip_from_request ip_address text_of ip_network contains trusted_cidrs
            (some peer)
            (some header)
  unfolding client_ip_from_request
  client_ip_from_request-forged trusted_cidrs peer forged header networks parsed h =
      rw
        (
          parsed,
          resolve_client_ip-forged ip_address text_of
              (in_any ip_address text_of ip_network contains networks) peer forged header h,
        )
        refl
