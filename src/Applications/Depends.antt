-- ===== src/Applications/Depends.antt =====
-- Orders in which an application stands after its dependencies, for the sort of
-- backend/app/services/applications/resolver.py.
use infra_ops.Prelude.{
  ℕ, ◌+◌, ◌≤◌, ◌≡◌, refl, true, ◌&&◌, List, [], ◌∷◌, ◌++◌, arith, ◌==◌, Option, none, some,
  count_if, All, Bool-cases, inl, inr,
}
use infra_ops.Applications.Catalog.{AppNode, Catalog, find, keys}
use infra_ops.Applications.Counts.{count, count-append}
use infra_ops.Applications.Edges.{inside}

pub find-keys :
    (x : ℕ) (required : Catalog)
    → 1 ≤ count x (keys required)
    → (n : AppNode) × (find x required ≡ some n)
unfolding find
find-keys x [] h = absurd (omega arith)
find-keys x ((key, node) ∷ required) h = elim (Bool-cases (key == x)) [
  | inl q ↦ (node, ground (arith, q))
  | inr q ↦ let (n, e) = find-keys x required (ground (arith, q)) in (n, ground (arith, q, e))
]

pub keys-find :
    (x : ℕ) (n : AppNode) (required : Catalog)
    → find x required ≡ some n
    → 1 ≤ count x (keys required)
unfolding find
keys-find x n [] e = ground arith
keys-find x n ((key, node) ∷ required) e = ground (arith, keys-find x n required)

abbrev pub deps_in : Option AppNode → List ℕ
deps_in none = []
deps_in (some n) = n.dependency_ids

module _ (required : Catalog) where
  -- The dependencies that are required and not in the order.
  abbrev pub open_deps : List ℕ → List ℕ → ℕ
  open_deps ordered deps = count_if (λ d. inside required d && (count d ordered == 0)) deps

  -- Each dependency of the list that is required stands before.
  abbrev pub Settled : List ℕ → List ℕ → Type 0
  Settled seen deps = All (λ d. inside required d ≡ true → 1 ≤ count d seen) deps

  -- Every application stands after its required dependencies; `seen` stands before the list.
  abbrev pub DependsFirst : List ℕ → List ℕ → Type 0
  DependsFirst seen [] = Unit
  DependsFirst seen (x ∷ xs) = Settled seen (deps_in (find x required)) × DependsFirst (x ∷ seen) xs

  pub Settled-more :
      (seen more deps : List ℕ)
      → ((d : ℕ) → count d seen ≤ count d more)
      → Settled seen deps
      → Settled more deps
  Settled-more seen more [] h s = tt
  Settled-more seen more (d ∷ deps) h (s, rest) =
      ((λ i. let l = s i in omega (arith, h d, l)), Settled-more seen more deps h rest)

  pub DependsFirst-snoc :
      (seen xs : List ℕ) (x : ℕ)
      → DependsFirst seen xs
      → Settled (xs ++ seen) (deps_in (find x required))
      → DependsFirst seen (xs ++ x ∷ [])
  DependsFirst-snoc seen [] x h s = (s, tt)
  DependsFirst-snoc seen (y ∷ xs) x (h, rest) s = (
    h,
    DependsFirst-snoc (y ∷ seen) xs x rest (
        Settled-more (y ∷ xs ++ seen) (xs ++ y ∷ seen) (deps_in (find x required))
          (λ d. ground (arith, count-append d xs seen, count-append d xs (y ∷ seen))) s),
  )

  pub Settled-none : (ordered deps : List ℕ) → open_deps ordered deps ≡ 0 → Settled ordered deps
  Settled-none ordered [] h = tt
  Settled-none ordered (d ∷ deps) h =
      ((λ i. ground (arith, i)), Settled-none ordered deps (ground arith))

  -- One application more in the order.
  pub open_deps-next :
      (ordered : List ℕ) (current : ℕ) (deps : List ℕ)
      → count current ordered ≡ 0
      → inside required current ≡ true
      → open_deps ordered deps ≡ open_deps (ordered ++ current ∷ []) deps + count current deps
  open_deps-next ordered current [] h i = refl
  open_deps-next ordered current (d ∷ deps) h i =
      let ih = open_deps-next ordered current deps h i in
      let sum = count-append d ordered (current ∷ []) in
      elim (Bool-cases (d == current)) [
        | inl q ↦
            let k : d ≡ current = ground arith in
            let id : inside required d ≡ true = rw k i in
            let hd : count d ordered ≡ 0 = rw k h in ground (arith, ih, sum, q, id, hd)
        | inr q ↦ ground (arith, ih, sum, q)
      ]
