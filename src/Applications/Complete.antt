-- ===== src/Applications/Complete.antt =====
-- The sort of resolve_install_order, backend/app/services/applications/resolver.py, leaves no
-- required application out.
use infra_ops.Prelude.{
  ℕ, suc, ◌≤◌, ◌≡◌, refl, sym, ap, Bool, List, [], ◌∷◌, arith, ◌==◌, if◌then◌else◌, Option, none,
  some, length, filter_if, All, Bool-cases, inl, inr, ◌∙◌,
}
use infra_ops.Applications.Catalog.{AppNode, Catalog, find, keys}
use infra_ops.Applications.Counts.{count, count-sort_by}
use infra_ops.Applications.Order.{no_edges, Sorting, name_in}
use infra_ops.Applications.Edges.{inside_count, collect_edges-indegree, total_inside-find}
use infra_ops.Applications.Depends.{find-keys, open_deps}
use infra_ops.Applications.Found.{InCatalog}
use infra_ops.Applications.Kahn.{Invariant, placed}
use infra_ops.Applications.Rounds.{edges, Sorted, kahn_lem}
use infra_ops.Applications.Resolve.{first_sorting, sort_required}

count-filter_if :
    (p : ℕ → Bool) (x : ℕ) (xs : List ℕ)
    → count x (filter_if p xs) ≡ (if p x then count x xs else 0)
count-filter_if p x [] = ground arith
count-filter_if p x (y ∷ xs) =
    let ih = count-filter_if p x xs in
    elim (Bool-cases (y == x)) [
      | inl q ↦ let k : y ≡ x = ground arith in rw k (ground (arith, ih))
      | inr q ↦ ground (arith, ih, q)
    ]

pub length-keys : (required : Catalog) → length (keys required) ≡ length required
length-keys [] = refl
length-keys ((key, n) ∷ required) = ap suc (length-keys required)

module _ (required : Catalog) where
  open_deps-nil : (deps : List ℕ) → open_deps required [] deps ≡ inside_count required deps
  open_deps-nil [] = refl
  open_deps-nil (d ∷ deps) = ground (arith, open_deps-nil deps)

  module _ (once : (x : ℕ) → count x (keys required) ≤ 1) where
    abbrev first : Sorting
    first = first_sorting required (edges required)

    placed-first :
        (x : ℕ)
        → placed required x first
          ≡ (if (edges required).indegree x == 0 then count x (keys required) else 0)
    placed-first x =
        let idle = λ (id : ℕ). (edges required).indegree id == 0 in
        omega (
          arith,
          count-sort_by (name_in required) x (filter_if idle (keys required)),
          count-filter_if idle x (keys required),
        )

    first-Invariant : Invariant required [] first
    first-Invariant = (
      (λ x n e. omega (
        arith,
        collect_edges-indegree required required no_edges x,
        total_inside-find required required x n (once x) e,
        open_deps-nil n.dependency_ids,
      )),
      (λ x. ground (arith, placed-first x)),
      (λ x l. ground (arith, placed-first x, l)),
      (λ x l z. ground (arith, placed-first x, l, z)),
      (λ x l. absurd (omega (arith, l))),
      tt,
    )

    -- As many rounds as there are required applications are enough.
    pub sort_required-Sorted : Sorted required once (sort_required required)
    unfolding sort_required
    sort_required-Sorted =
        kahn_lem required once (name_in required) (length required) first.ready first refl
          first-Invariant (omega (arith, length-keys required))

or_node : AppNode → Option AppNode → AppNode
or_node n none = n
or_node n (some m) = m

pub node_same : (n m : AppNode) → ◌≡◌ {A = Option AppNode} (some n) (some m) → n ≡ m
unfolding or_node
node_same n m e = ap (or_node n) e

counted-All :
    (seen ids deps : List ℕ)
    → ((d : ℕ) → 1 ≤ count d seen → 1 ≤ count d ids)
    → All (λ d. 1 ≤ count d seen) deps
    → (required : Catalog) → open_deps required ids deps ≡ 0
counted-All seen ids [] h a required = refl
counted-All seen ids (d ∷ deps) h (a, rest) required =
    ground (arith, counted-All seen ids deps h rest required, h d a)

-- Applications that stand in a catalogue after their dependencies are all in the order.
pub all_placed :
    (required catalog : Catalog) (ids : List ℕ)
    → ((x : ℕ) (n : AppNode) → find x required ≡ some n → find x catalog ≡ some n)
    → ((x : ℕ) (n : AppNode)
        → find x required ≡ some n
        → count x ids ≡ 0
        → 1 ≤ open_deps required ids n.dependency_ids)
    → (seen : List ℕ) (rest : Catalog) → InCatalog catalog seen rest
    → ((x : ℕ) → count x (keys rest) ≤ count x (keys required))
    → ((d : ℕ) → 1 ≤ count d seen → 1 ≤ count d ids)
    → (x : ℕ) → 1 ≤ count x (keys rest)
    → 1 ≤ count x ids
all_placed required catalog ids same stuck seen [] p sub h x l = absurd (omega (arith, l))
all_placed required catalog ids same stuck seen ((key, n) ∷ rest) (f, a, p) sub h x l =
    let (m, em) = find-keys key required (ground (arith, sub key)) in
    let mn : m ≡ n = node_same m n (sym (same key m em) ∙ f) in
    let settled : open_deps required ids m.dependency_ids ≡ 0 =
      rw mn (counted-All seen ids n.dependency_ids h a required) in
    let wait = stuck key m em in
    let here : 1 ≤ count key ids = elim (Bool-cases (count key ids == 0)) [
      | inl q ↦ let w = wait (ground (arith, q)) in absurd (omega (arith, w, settled))
      | inr q ↦ ground (arith, q)
    ] in
    let ih =
      all_placed required catalog ids same stuck (key ∷ seen) rest p (λ y. ground (arith, sub y))
        (λ d g. elim (Bool-cases (key == d)) [
          | inl q ↦ let k : d ≡ key = ground arith in rw k here
          | inr q ↦ h d (ground (arith, g, q))
        ])
        x in
    elim (Bool-cases (key == x)) [
      | inl q ↦ let k : x ≡ key = ground arith in rw k here
      | inr q ↦ ih (ground (arith, l, q))
    ]
