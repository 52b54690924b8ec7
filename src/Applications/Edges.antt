-- ===== src/Applications/Edges.antt =====
-- The edges that resolve_install_order of backend/app/services/applications/resolver.py collects,
-- counted.
use infra_ops.Prelude.{
  ℕ, ◌+◌, ◌≤◌, ◌≡◌, refl, Bool, true, ◌&&◌, List, [], ◌∷◌, arith, ◌==◌, if◌then◌else◌, some,
  is_some, count_if, Bool-cases, inl, inr,
}
use infra_ops.Applications.Catalog.{AppNode, Catalog, find, keys}
use infra_ops.Applications.Counts.{count, count-append}
use infra_ops.Applications.Order.{Edges, add_edge, add_edges, collect_edges}

abbrev pub inside : Catalog → ℕ → Bool
inside required id = is_some (find id required)

abbrev pub inside_count : Catalog → List ℕ → ℕ
inside_count required deps = count_if (inside required) deps

abbrev added : Catalog → ℕ → ℕ → Edges → Edges
added required app_id dep_id e = if inside required dep_id then add_edge app_id dep_id e else e

added-indegree :
    (required : Catalog) (app_id dep_id : ℕ) (e : Edges) (x : ℕ)
    → (added required app_id dep_id e).indegree x
      ≡ e.indegree x + (if (app_id == x) && inside required dep_id then 1 else 0)
added-indegree required app_id dep_id e x = elim (Bool-cases (inside required dep_id)) [
  | inl q ↦ rw q (ground arith)
  | inr q ↦ rw q (ground arith)
]

added-edges_out :
    (required : Catalog) (app_id dep_id : ℕ) (e : Edges) (x c : ℕ)
    → count x ((added required app_id dep_id e).edges_out c)
      ≡ count x (e.edges_out c)
        + (if (app_id == x) && (inside required c && (dep_id == c)) then 1 else 0)
added-edges_out required app_id dep_id e x c = elim (Bool-cases (inside required dep_id)) [
  | inl q ↦ rw q (ground (arith, count-append x (e.edges_out c) (app_id ∷ []), q))
  | inr q ↦ rw q (ground (arith, q))
]

add_edges-indegree :
    (required : Catalog) (app_id : ℕ) (deps : List ℕ) (e : Edges) (x : ℕ)
    → (add_edges required app_id deps e).indegree x
      ≡ e.indegree x + (if app_id == x then inside_count required deps else 0)
unfolding add_edges
add_edges-indegree required app_id [] e x = ground arith
add_edges-indegree required app_id (dep_id ∷ deps) e x =
    let ih = add_edges-indegree required app_id deps (added required app_id dep_id e) x in
    let here = added-indegree required app_id dep_id e x in
    elim (Bool-cases (inside required dep_id)) [
      | inl q ↦ ground (arith, ih, here, q)
      | inr q ↦ ground (arith, ih, here, q)
    ]

add_edges-edges_out :
    (required : Catalog) (app_id : ℕ) (deps : List ℕ) (e : Edges) (x c : ℕ)
    → count x ((add_edges required app_id deps e).edges_out c)
      ≡ count x (e.edges_out c) + (if (app_id == x) && inside required c then count c deps else 0)
unfolding add_edges
add_edges-edges_out required app_id [] e x c = ground arith
add_edges-edges_out required app_id (dep_id ∷ deps) e x c =
    let ih = add_edges-edges_out required app_id deps (added required app_id dep_id e) x c in
    let here = added-edges_out required app_id dep_id e x c in ground (arith, ih, here)

-- Over the entries of a key: their dependencies inside, and how often they name `c`.
abbrev pub total_inside : Catalog → Catalog → ℕ → ℕ
total_inside required [] x = 0
total_inside required ((key, node) ∷ rest) x =
    let others = total_inside required rest x in
    (if key == x then inside_count required node.dependency_ids else 0) + others

abbrev pub total_naming : Catalog → Catalog → ℕ → ℕ → ℕ
total_naming required [] x c = 0
total_naming required ((key, node) ∷ rest) x c =
    let others = total_naming required rest x c in
    (if (key == x) && inside required c then count c node.dependency_ids else 0) + others

pub collect_edges-indegree :
    (required rest : Catalog) (e : Edges) (x : ℕ)
    → (collect_edges required rest e).indegree x ≡ e.indegree x + total_inside required rest x
unfolding collect_edges
collect_edges-indegree required [] e x = ground arith
collect_edges-indegree required ((key, node) ∷ rest) e x =
    let ih =
      collect_edges-indegree required rest (add_edges required key node.dependency_ids e) x in
    let here = add_edges-indegree required key node.dependency_ids e x in omega (arith, ih, here)

pub collect_edges-edges_out :
    (required rest : Catalog) (e : Edges) (x c : ℕ)
    → count x ((collect_edges required rest e).edges_out c)
      ≡ count x (e.edges_out c) + total_naming required rest x c
unfolding collect_edges
collect_edges-edges_out required [] e x c = ground arith
collect_edges-edges_out required ((key, node) ∷ rest) e x c =
    let ih =
      collect_edges-edges_out required rest (add_edges required key node.dependency_ids e) x c in
    let here = add_edges-edges_out required key node.dependency_ids e x c in omega (arith, ih, here)

pub total_inside-none :
    (required rest : Catalog) (x : ℕ) → count x (keys rest) ≡ 0 → total_inside required rest x ≡ 0
total_inside-none required [] x h = refl
total_inside-none required ((key, node) ∷ rest) x h =
    ground (arith, total_inside-none required rest x)

pub total_naming-none :
    (required rest : Catalog) (x c : ℕ)
    → count x (keys rest) ≡ 0
    → total_naming required rest x c ≡ 0
total_naming-none required [] x c h = refl
total_naming-none required ((key, node) ∷ rest) x c h =
    ground (arith, total_naming-none required rest x c)

pub total_inside-find :
    (required rest : Catalog) (x : ℕ) (node : AppNode)
    → count x (keys rest) ≤ 1
    → find x rest ≡ some node
    → total_inside required rest x ≡ inside_count required node.dependency_ids
unfolding find
total_inside-find required [] x node h e = ground arith
total_inside-find required ((key, n) ∷ rest) x node h e = elim (Bool-cases (key == x)) [
  | inl q ↦
      let none_left : count x (keys rest) ≡ 0 = ground arith in
      let z = total_inside-none required rest x none_left in ground (arith, z, q, e)
  | inr q ↦ ground (arith, total_inside-find required rest x node, q, e)
]

pub total_naming-find :
    (required rest : Catalog) (x c : ℕ) (node : AppNode)
    → count x (keys rest) ≤ 1
    → find x rest ≡ some node
    → inside required c ≡ true
    → total_naming required rest x c ≡ count c node.dependency_ids
unfolding find
total_naming-find required [] x c node h e i = ground arith
total_naming-find required ((key, n) ∷ rest) x c node h e i = elim (Bool-cases (key == x)) [
  | inl q ↦
      let none_left : count x (keys rest) ≡ 0 = ground arith in
      let z = total_naming-none required rest x c none_left in ground (arith, z, q, e, i)
  | inr q ↦ ground (arith, total_naming-find required rest x c node, q, e, i)
]
