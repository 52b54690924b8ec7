-- ===== src/Applications/Rounds.antt =====
-- The loop of the sort of resolve_install_order, backend/app/services/applications/resolver.py:
-- with a round for each application it ends, with an order that follows the dependencies.
use infra_ops.Prelude.{
  ℕ, zero, suc, ◌+◌, ◌≤◌, ◌≡◌, refl, String, true, List, [], ◌∷◌, ◌++◌, arith, ◌==◌, Option, some,
  length, Bool-cases, inl, inr, ap,
}
use infra_ops.Applications.Catalog.{AppNode, Catalog, find, keys}
use infra_ops.Applications.Counts.{count, count-append, within-length}
use infra_ops.Applications.Order.{
  Edges, no_edges, collect_edges, Sorting, release, release_all, take_first, sort_ready, kahn,
}
use infra_ops.Applications.Edges.{
  inside, total_naming-none, total_naming-find, collect_edges-edges_out,
}
use infra_ops.Applications.Depends.{
  find-keys, keys-find, deps_in, open_deps, DependsFirst, Settled-more, DependsFirst-snoc,
  Settled-none, open_deps-next,
}
use infra_ops.Applications.Kahn.{Invariant, placed, release_all-Invariant, sort_ready-Invariant}

length-both : (xs ys : List ℕ) → length (xs ++ ys) ≡ length xs + length ys
length-both [] ys = omega arith
length-both (x ∷ xs) ys = ground (arith, length-both xs ys)

release_all-ordered : (pending : List ℕ) (s : Sorting) → (release_all pending s).ordered ≡ s.ordered
unfolding release_all
release_all-ordered [] s = refl
release_all-ordered (y ∷ pending) s = release_all-ordered pending (release y s)

module _ (required : Catalog) where
  -- The edges are those from a dependency to the applications that name it.
  abbrev pub edges : Edges
  edges = collect_edges required required no_edges

  placed-take_first :
      (x current : ℕ) (rest : List ℕ) (s : Sorting)
      → s.ready ≡ current ∷ rest
      → placed required x (take_first current rest s) ≡ placed required x s
  placed-take_first x current rest s e =
      let counted = ap (count x) e in
      ground (arith, counted, count-append x s.ordered (current ∷ []))

  module _ (once : (x : ℕ) → count x (keys required) ≤ 1) where
    edges_to :
        (x c : ℕ) (n : AppNode)
        → find x required ≡ some n
        → inside required c ≡ true
        → count x (edges.edges_out c) ≡ count c n.dependency_ids
    edges_to x c n e i = omega (
      arith,
      collect_edges-edges_out required required no_edges x c,
      total_naming-find required required x c n (once x) e i,
    )

    edges_required : (x c : ℕ) → 1 ≤ count x (edges.edges_out c) → 1 ≤ count x (keys required)
    edges_required x c l =
        let q = collect_edges-edges_out required required no_edges x c in
        elim (Bool-cases (count x (keys required) == 0)) [
          | inl z ↦
              let zero_count : count x (keys required) ≡ 0 = ground (arith, z) in
              let n = total_naming-none required required x c zero_count in
              absurd (omega (arith, q, n, l))
          | inr z ↦ ground (arith, z)
        ]

    take_first-Invariant :
        (current : ℕ) (rest : List ℕ) (s : Sorting)
        → s.ready ≡ current ∷ rest
        → Invariant required [] s
        → Invariant required (edges.edges_out current) (take_first current rest s)
    take_first-Invariant current rest s e (a, b, c, c2, d, f) =
        let in_ready = λ (x : ℕ). ap (count x) e in
        let here : 1 ≤ count current s.ready = ground (arith, in_ready current) in
        let bc = b current in
        let oc = once current in
        let fresh : count current s.ordered ≡ 0 = omega (arith, here, bc, oc) in
        let (n, en) = find-keys current required (omega (arith, here, bc)) in
        let inside_current : inside required current ≡ true = rw en refl in
        let idle : s.indegree current ≡ 0 = c current (omega (arith, here)) in
        let ready_deps : open_deps required s.ordered n.dependency_ids ≡ 0 =
          let ac = a current n en in omega (arith, ac, idle) in
        let moved = λ (x : ℕ). placed-take_first x current rest s e in
        (
          (λ x m em.
              let ax = a x m em in
              let to = edges_to x current m em inside_current in
              let next =
                open_deps-next required s.ordered current m.dependency_ids fresh inside_current in
              omega (arith, ax, to, next)),
          (λ x. let bx = b x in let mx = moved x in omega (arith, bx, mx)),
          (λ x l. let mx = moved x in c x (omega (arith, mx, l))),
          (λ x l z. let mx = moved x in let k = c2 x l z in omega (arith, mx, k)),
          (λ x l. edges_required x current l),
          DependsFirst-snoc required [] s.ordered current f (
              Settled-more required s.ordered (s.ordered ++ []) (deps_in (find current required))
                (λ d. ground (arith, count-append d s.ordered []))
                (rw en (Settled-none required s.ordered n.dependency_ids ready_deps))),
        )

    -- What the loop ends with: an order of required applications, each after its dependencies,
    -- where each application left out waits for a dependency that is left out.
    abbrev pub Sorted : Option (List ℕ) → Type 0
    Sorted o =
        (ids : List ℕ) × (o ≡ some ids)
        × DependsFirst required [] ids
        × ((x : ℕ) → count x ids ≤ count x (keys required))
        × ((x : ℕ) (n : AppNode)
            → find x required ≡ some n
            → count x ids ≡ 0
            → 1 ≤ open_deps required ids n.dependency_ids)

    room :
        (s : Sorting)
        → Invariant required [] s
        → length s.ordered + length s.ready ≤ length (keys required)
    room s inv =
        let l =
          within-length (s.ordered ++ s.ready) (keys required)
            (λ x. let bx = inv.1 x in omega (arith, bx, count-append x s.ordered s.ready)) in
        omega (arith, l, length-both s.ordered s.ready)

    pub kahn_lem :
        (names : ℕ → String) (fuel : ℕ) (ready : List ℕ) (s : Sorting)
        → s.ready ≡ ready
        → Invariant required [] s
        → length (keys required) ≤ fuel + length s.ordered
        → Sorted (kahn fuel names edges.edges_out ready s)
    unfolding kahn
    kahn_lem names fuel [] s e (a, b, c, c2, d, f) l =
        let gone = λ (x : ℕ). ap (count x) e in
        (
          s.ordered,
          refl,
          f,
          (λ x. let bx = b x in omega (arith, bx)),
          (λ x n en z.
              let ax = a x n en in
              let cx = c2 x (keys-find x n required en) in
              let gx = gone x in ground (arith, ax, cx, gx, z)),
        )
    kahn_lem names zero (current ∷ rest) s e inv l =
        let more = ap length e in absurd (omega (arith, room s inv, more, l))
    kahn_lem names (suc fuel) (current ∷ rest) s e inv l =
        let after = release_all (edges.edges_out current) (take_first current rest s) in
        let next = sort_ready names after in
        let kept = sort_ready-Invariant required names after (
          release_all-Invariant required (edges.edges_out current) (take_first current rest s)
            (take_first-Invariant current rest s e inv)) in
        let same =
          ap length (release_all-ordered (edges.edges_out current) (take_first current rest s)) in
        kahn_lem names fuel next.ready next refl kept
          (omega (arith, same, length-both s.ordered (current ∷ []), l))
