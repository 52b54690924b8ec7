-- ===== src/Applications/Found.antt =====
-- Look-ups in the dict that the search of backend/app/services/applications/resolver.py grows, and
-- the colours of a list of identifiers.
use infra_ops.Prelude.{
  ℕ, ◌≤◌, ◌≡◌, ◌≢◌, refl, List, [], ◌∷◌, ◌++◌, arith, ◌==◌, none, some, All, Bool-cases, inl, inr,
  sym, ◌⊎◌, ap,
}
use infra_ops.Applications.Catalog.{AppNode, Catalog, find, keys, sort_ids}
use infra_ops.Applications.Counts.{count, count-append, count-sort_ids}
use infra_ops.Applications.Search.{Color, black, painted}

pub paint_others :
    (color : ℕ → Color) (id x : ℕ) (c d : Color)
    → color x ≡ d
    → color id ≢ d
    → painted color id c x ≡ d
paint_others color id x c d e n = elim (Bool-cases (x == id)) [
  | inl q ↦ let k : x ≡ id = ground arith in absurd (n (rw (sym k) e))
  | inr q ↦ rw q e
]

pub find-append :
    (id key : ℕ) (node : AppNode) (required : Catalog)
    → find id (required ++ (key, node) ∷ [])
      ≡ elim (find id required) [ none ↦ find id ((key, node) ∷ []) | some n ↦ some n ]
unfolding find
find-append id key node [] = refl
find-append id key node ((other, n) ∷ required) = ground (arith, find-append id key node required)

pub count-keys :
    (id : ℕ) (required : Catalog) → find id required ≡ none → count id (keys required) ≡ 0
unfolding find
count-keys id [] h = refl
count-keys id ((key, n) ∷ required) h = ground (arith, count-keys id required)

pub find_old :
    (x id : ℕ) (node n : AppNode) (required : Catalog)
    → find x required ≡ some n
    → find x (required ++ (id, node) ∷ []) ≡ some n
find_old x id node n required e = let q = find-append x id node required in ground (arith, q, e)

pub find_new :
    (id : ℕ) (node : AppNode) (required : Catalog)
    → find id required ≡ none
    → find id (required ++ (id, node) ∷ []) ≡ some node
unfolding find
find_new id node required e = let q = find-append id id node required in ground (arith, q, e)

pub find_either :
    (x id : ℕ) (node n : AppNode) (required : Catalog)
    → find x (required ++ (id, node) ∷ []) ≡ some n
    → (find x required ≡ some n) ⊎ ((x ≡ id) × (node ≡ n))
unfolding find
find_either x id node n [] e = ground arith
find_either x id node n ((key, m) ∷ required) e = elim (Bool-cases (key == x)) [
  | inl q ↦ inl (ground arith)
  | inr q ↦ let r = find_either x id node n required (ground arith) in ground arith
]

pub keys-append :
    (id : ℕ) (node : AppNode) (required : Catalog)
    → keys (required ++ (id, node) ∷ []) ≡ keys required ++ id ∷ []
keys-append id node [] = refl
keys-append id node ((key, m) ∷ required) = ap (λ ks. key ∷ ks) (keys-append id node required)

pub stays_black :
    (color : ℕ → Color) (id x : ℕ) → color x ≡ black → painted color id black x ≡ black
stays_black color id x e = ground arith

-- Every identifier of the list has been left.
abbrev pub AllBlack : (ℕ → Color) → List ℕ → Type 0
AllBlack color ids = All (λ d. color d ≡ black) ids

pub AllBlack-map :
    (f g : ℕ → Color)
    → ((x : ℕ) → f x ≡ black → g x ≡ black)
    → (ids : List ℕ) → AllBlack f ids
    → AllBlack g ids
AllBlack-map f g h [] a = tt
AllBlack-map f g h (id ∷ ids) (a, rest) = (h id a, AllBlack-map f g h ids rest)

pub AllBlack-at :
    (f : ℕ → Color) (ids : List ℕ) → AllBlack f ids → (d : ℕ) → 1 ≤ count d ids → f d ≡ black
AllBlack-at f [] a d h = absurd (omega arith)
AllBlack-at f (id ∷ ids) (a, rest) d h = ground (arith, AllBlack-at f ids rest d, a)

pub AllBlack-from :
    (f : ℕ → Color) (ids : List ℕ) → ((d : ℕ) → 1 ≤ count d ids → f d ≡ black) → AllBlack f ids
AllBlack-from f [] h = tt
AllBlack-from f (id ∷ ids) h =
    (h id (ground arith), AllBlack-from f ids (λ d l. h d (ground arith)))

pub AllBlack-sort_ids : (f : ℕ → Color) (ids : List ℕ) → AllBlack f (sort_ids ids) → AllBlack f ids
AllBlack-sort_ids f ids a =
    AllBlack-from f ids
      (λ d l. AllBlack-at f (sort_ids ids) a d (omega (arith, count-sort_ids d ids)))

-- The entries are those of the catalogue, each after its dependencies; `seen` stands before.
abbrev pub InCatalog : Catalog → List ℕ → Catalog → Type 0
InCatalog catalog seen [] = Unit
InCatalog catalog seen ((key, n) ∷ required) =
    (find key catalog ≡ some n)
    × All (λ d. 1 ≤ count d seen) n.dependency_ids
    × InCatalog catalog (key ∷ seen) required

counted_more :
    (seen more deps : List ℕ)
    → ((d : ℕ) → count d seen ≤ count d more)
    → All (λ d. 1 ≤ count d seen) deps
    → All (λ d. 1 ≤ count d more) deps
counted_more seen more [] h s = tt
counted_more seen more (d ∷ deps) h (s, rest) =
    (omega (arith, h d, s), counted_more seen more deps h rest)

pub InCatalog-snoc :
    (catalog : Catalog) (seen : List ℕ) (required : Catalog) (id : ℕ) (n : AppNode)
    → InCatalog catalog seen required
    → find id catalog ≡ some n
    → All (λ d. 1 ≤ count d (keys required ++ seen)) n.dependency_ids
    → InCatalog catalog seen (required ++ (id, n) ∷ [])
InCatalog-snoc catalog seen [] id n p e a = (e, a, tt)
InCatalog-snoc catalog seen ((key, m) ∷ required) id n (f, b, p) e a = (
  f,
  b,
  InCatalog-snoc catalog (key ∷ seen) required id n p e (
      counted_more (key ∷ keys required ++ seen) (keys required ++ key ∷ seen) n.dependency_ids
        (λ d.
          ground (
            arith,
            count-append d (keys required) seen,
            count-append d (keys required) (key ∷ seen),
          ))
        a),
)
