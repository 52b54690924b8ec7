-- ===== src/Applications/Kahn.antt =====
-- The invariant of the sort of resolve_install_order, backend/app/services/applications/resolver.py:
-- the indegree of an application counts its dependencies that are not in the order yet.
use infra_ops.Prelude.{
  ℕ, ◌+◌, ◌-◌, ◌≤◌, ◌≡◌, String, ◌&&◌, List, [], ◌∷◌, arith, ◌==◌, if◌then◌else◌, some, Bool-cases,
  inl, inr,
}
use infra_ops.Applications.Catalog.{AppNode, Catalog, find, keys}
use infra_ops.Applications.Counts.{count, count-append, count-sort_by}
use infra_ops.Applications.Order.{Sorting, release, release_all, sort_ready}
use infra_ops.Applications.Depends.{find-keys, open_deps, DependsFirst}

module _ (required : Catalog) where
  -- How often an application is in the order or ready.
  abbrev pub placed : ℕ → Sorting → ℕ
  placed x s = count x s.ordered + count x s.ready

  -- The invariant, where the applications `pending` are still to be told that the last one of the
  -- order is there.
  abbrev pub Invariant : List ℕ → Sorting → Type 0
  Invariant pending s =
      ((x : ℕ) (n : AppNode)
        → find x required ≡ some n
        → s.indegree x ≡ open_deps required s.ordered n.dependency_ids + count x pending)
      × ((x : ℕ) → placed x s ≤ count x (keys required))
      × ((x : ℕ) → 1 ≤ placed x s → s.indegree x ≡ 0)
      × ((x : ℕ) → 1 ≤ count x (keys required) → s.indegree x ≡ 0 → 1 ≤ placed x s)
      × ((x : ℕ) → 1 ≤ count x pending → 1 ≤ count x (keys required))
      × DependsFirst required [] s.ordered

  placed-release :
      (x y : ℕ) (s : Sorting)
      → placed x (release y s) ≡ placed x s + (if (s.indegree y - 1 == 0) && (y == x) then 1 else 0)
  placed-release x y s =
      let sum = count-append x s.ready (y ∷ []) in
      elim (Bool-cases (s.indegree y - 1 == 0)) [
        | inl q ↦ rw q (ground (arith, sum))
        | inr q ↦ rw q (ground (arith, sum))
      ]

  release-Invariant :
      (y : ℕ) (pending : List ℕ) (s : Sorting)
      → Invariant (y ∷ pending) s
      → Invariant pending (release y s)
  release-Invariant y pending s (a, b, c, c2, d, f) =
      let required_y = d y (ground arith) in
      let (n, e) = find-keys y required required_y in
      let ay = a y n e in
      let cy = c y in
      let free : placed y s ≡ 0 = ground (arith, ay, cy) in
      let by = b y in
      (
        (λ x m em. let ax = a x m em in ground (arith, ax, ay)),
        (λ x. let bx = b x in ground (arith, placed-release x y s, bx, by, free, required_y)),
        (λ x l. let cx = c x in ground (arith, placed-release x y s, l, cx, ay, free)),
        (λ x l z. let cx = c2 x l in ground (arith, placed-release x y s, z, cx, ay, free)),
        (λ x l. d x (ground arith)),
        f,
      )

  pub release_all-Invariant :
      (pending : List ℕ) (s : Sorting) → Invariant pending s → Invariant [] (release_all pending s)
  unfolding release_all
  release_all-Invariant [] s inv = inv
  release_all-Invariant (y ∷ pending) s inv =
      release_all-Invariant pending (release y s) (release-Invariant y pending s inv)

  pub sort_ready-Invariant :
      (names : ℕ → String) (s : Sorting) → Invariant [] s → Invariant [] (sort_ready names s)
  sort_ready-Invariant names s (a, b, c, c2, d, f) = (
    a,
    (λ x. let bx = b x in omega (arith, count-sort_by names x s.ready, bx)),
    (λ x l. c x (omega (arith, count-sort_by names x s.ready, l))),
    (λ x l z. let k = c2 x l z in omega (arith, count-sort_by names x s.ready, k)),
    d,
    f,
  )
