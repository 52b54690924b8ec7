-- ===== src/Applications/Order.antt =====
-- Kahn's sort in resolve_install_order, backend/app/services/applications/resolver.py.
use infra_ops.Prelude.{
  ℕ, zero, suc, ◌-◌, String, List, [], ◌∷◌, ◌++◌, Option, none, some, is_some, ◌==◌, if◌then◌else◌,
}
use infra_ops.Applications.Catalog.{AppNode, Catalog, find, sort_by}

-- The dicts of the sort, as functions on the identifiers.
pub record Edges : Type 0 where
  pub indegree : ℕ → ℕ
  pub edges_out : ℕ → List ℕ

abbrev pub no_edges : Edges
no_edges = record { indegree = λ id. 0; edges_out = λ id. [] }

-- edges_out[dep_id].append(app_id); indegree[app_id] += 1
abbrev pub add_edge : ℕ → ℕ → Edges → Edges
add_edge app_id dep_id e = record {
  indegree = λ id. if id == app_id then suc (e.indegree id) else e.indegree id;
  edges_out = λ id. if id == dep_id then e.edges_out id ++ app_id ∷ [] else e.edges_out id;
}

-- The loop over the dependencies of one application.
unfoldable pub add_edges : Catalog → ℕ → List ℕ → Edges → Edges
add_edges required app_id [] e = e
add_edges required app_id (dep_id ∷ deps) e =
    add_edges required app_id deps
      (if is_some (find dep_id required) then add_edge app_id dep_id e else e)

-- The loop over the required applications.
unfoldable pub collect_edges : Catalog → Catalog → Edges → Edges
unfolding add_edges
collect_edges required [] e = e
collect_edges required ((app_id, node) ∷ rest) e =
    collect_edges required rest (add_edges required app_id node.dependency_ids e)

abbrev name_of : Option AppNode → String
name_of none = ""
name_of (some node) = node.name

-- required[a].name
abbrev pub name_in : Catalog → ℕ → String
name_in required id = name_of (find id required)

pub record Sorting : Type 0 where
  pub indegree : ℕ → ℕ
  pub ready : List ℕ
  pub ordered : List ℕ

-- indegree[dependent] -= 1, and the dependent is ready where that leaves 0.
abbrev pub release : ℕ → Sorting → Sorting
release dependent s = record s {
  indegree = λ id. if id == dependent then s.indegree id - 1 else s.indegree id;
  ready = if s.indegree dependent - 1 == 0 then s.ready ++ dependent ∷ [] else s.ready;
}

unfoldable pub release_all : List ℕ → Sorting → Sorting
release_all [] s = s
release_all (dependent ∷ dependents) s = release_all dependents (release dependent s)

-- ready.pop(0) and ordered_ids.append(current)
abbrev pub take_first : ℕ → List ℕ → Sorting → Sorting
take_first current rest s = record s { ready = rest; ordered = s.ordered ++ current ∷ [] }

abbrev pub sort_ready : (ℕ → String) → Sorting → Sorting
sort_ready names s = record s { ready = sort_by names s.ready }

-- The while loop; none where it has run out of fuel.
unfoldable pub kahn : ℕ → (ℕ → String) → (ℕ → List ℕ) → List ℕ → Sorting → Option (List ℕ)
unfolding release_all
kahn fuel names edges_out [] s = some s.ordered
kahn zero names edges_out (current ∷ rest) s = none
kahn (suc fuel) names edges_out (current ∷ rest) s =
    let next = sort_ready names (release_all (edges_out current) (take_first current rest s)) in
    kahn fuel names edges_out next.ready next
