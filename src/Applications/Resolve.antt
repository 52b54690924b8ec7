-- ===== src/Applications/Resolve.antt =====
-- resolve_install_order of backend/app/services/applications/resolver.py.
use infra_ops.Prelude.{
  ℕ, suc, ◌≡◌, refl, String, true, List, [], ◌∷◌, ◌++◌, map, Option, none, some, concat, length,
  filter_if, ◌==◌, if◌then◌else◌,
}
use infra_ops.Applications.Catalog.{AppNode, Catalog, find, keys, sort_by, sort_ids}
use infra_ops.Applications.Search.{Search, start, visit, visit_each, enter}
use infra_ops.Applications.Order.{
  Edges, no_edges, collect_edges, add_edges, Sorting, kahn, name_in, release_all,
}

-- What resolve_install_order returns: the applications in order, and the errors.
pub record Resolution : Type 0 where
  pub ordered : List AppNode
  pub errors : List String

abbrev pub disabled_error : AppNode → String
disabled_error node =
    concat
      ("Application '" ∷ node.name ∷ "' is disabled in the catalog and cannot be installed." ∷ [])

-- The loop over required.values().
unfoldable pub disabled_errors : Catalog → List String
disabled_errors [] = []
disabled_errors ((id, node) ∷ required) =
    let rest = disabled_errors required in if node.enabled then rest else disabled_error node ∷ rest

abbrev pub node_onto : Option AppNode → List AppNode → List AppNode
node_onto none nodes = nodes
node_onto (some node) nodes = node ∷ nodes

-- [required[app_id] for app_id in ordered_ids]
unfoldable pub nodes_of : Catalog → List ℕ → List AppNode
nodes_of required [] = []
nodes_of required (id ∷ ids) = node_onto (find id required) (nodes_of required ids)

abbrev pub order_error : String
order_error = "Dependencies could not be ordered (internal consistency error)."

abbrev pub checked_length : Catalog → List ℕ → Resolution
checked_length required ids =
    if length ids == length required
    then record { ordered = nodes_of required ids; errors = [] }
    else record { ordered = []; errors = order_error ∷ [] }

abbrev pub sorted : Catalog → Option (List ℕ) → Option Resolution
sorted required none = none
sorted required (some ids) = some (checked_length required ids)

-- The sorting that the while loop begins with.
abbrev pub first_sorting : Catalog → Edges → Sorting
first_sorting required e = record {
  indegree = e.indegree;
  ready = sort_by (name_in required) (filter_if (λ id. e.indegree id == 0) (keys required));
  ordered = [];
}

-- Each round takes one identifier, so that as many rounds as identifiers are enough.
unfoldable pub sort_required : Catalog → Option (List ℕ)
unfolding collect_edges
sort_required required =
    let e = collect_edges required required no_edges in
    let s = first_sorting required e in
    kahn (length required) (name_in required) e.edges_out s.ready s

abbrev pub order_found : Catalog → List String → Option Resolution
order_found required [] = sorted required (sort_required required)
order_found required (e ∷ es) = some (record { ordered = []; errors = e ∷ es })

abbrev pub searched : Option Search → Option Resolution
searched none = none
searched (some s) = order_found s.required (s.errors ++ disabled_errors s.required)

-- A visit goes at most one deeper than there are applications; none stands for running out of fuel.
unfoldable pub resolve_install_order : (ℕ → String) → List ℕ → Catalog → Option Resolution
resolve_install_order id_text selected_ids catalog =
    searched
      (visit_each id_text catalog (visit id_text catalog (suc (length catalog))) selected_ids start)

abbrev sample : Catalog
sample =
    (1, record { id = 1; name = "App"; enabled = true; dependency_ids = 3 ∷ 2 ∷ [] })
    ∷ (2, record { id = 2; name = "Runtime"; enabled = true; dependency_ids = 3 ∷ [] })
    ∷ (3, record { id = 3; name = "Zlib"; enabled = true; dependency_ids = [] })
    ∷ (4, record { id = 4; name = "Loop"; enabled = true; dependency_ids = 5 ∷ [] })
    ∷ (5, record { id = 5; name = "Pool"; enabled = true; dependency_ids = 4 ∷ [] })
    ∷ []

abbrev names_of : Option Resolution → List String
names_of none = "out of fuel" ∷ []
names_of (some r) = map (λ n. n.name) r.ordered ++ r.errors

in_order :
    names_of (resolve_install_order (λ id. "?") (1 ∷ []) sample) ≡ "Zlib" ∷ "Runtime" ∷ "App" ∷ []
unfolding resolve_install_order visit visit_each enter find sort_ids start disabled_errors
    sort_required collect_edges add_edges kahn release_all sort_by nodes_of
in_order = refl

in_circle :
    names_of (resolve_install_order (λ id. "?") (4 ∷ []) sample)
    ≡ "Circular dependency detected: Loop -> Pool" ∷ []
unfolding resolve_install_order visit visit_each enter find sort_ids start disabled_errors concat
in_circle = refl
