-- ===== src/Applications/Search.antt =====
-- The depth-first search of resolve_install_order, backend/app/services/applications/resolver.py.
use infra_ops.Prelude.{
  ℕ, zero, suc, String, List, [], ◌∷◌, ◌++◌, map, Option, none, some, concat, ◌==◌, if◌then◌else◌,
}
use infra_ops.Applications.Catalog.{AppNode, Catalog, find, sort_ids}

pub data Color : Type 0 where
  white gray black : Color

-- The variables that `visit` shares; `chain` is in the order of its visits.
pub record Search : Type 0 where
  pub errors : List String
  pub required : Catalog
  pub color : ℕ → Color
  pub chain : List ℕ

unfoldable pub start : Search
start = record { errors = []; required = []; color = λ id. white; chain = [] }

abbrev pub painted : (ℕ → Color) → ℕ → Color → ℕ → Color
painted color id c other = if other == id then c else color other

abbrev pub paint : ℕ → Color → Search → Search
paint id c s = record s { color = painted s.color id c }

-- chain[chain.index(app_id):]
abbrev from_id : ℕ → List ℕ → List ℕ
from_id id [] = []
from_id id (other ∷ ids) = let rest = from_id id ids in if other == id then other ∷ ids else rest

abbrev without_last : List ℕ → List ℕ
without_last [] = []
without_last (id ∷ []) = []
without_last (id ∷ other ∷ ids) = id ∷ without_last (other ∷ ids)

abbrev joined : String → List String → String
joined sep [] = ""
joined sep (s ∷ []) = s
joined sep (s ∷ t ∷ ts) = concat (s ∷ sep ∷ joined sep (t ∷ ts) ∷ [])

-- How `str` prints an identifier is a parameter, as the model's identifiers are numbers.
module _ (id_text : ℕ → String) (catalog : Catalog) where
  abbrev name_in_cycle : ℕ → Option AppNode → String
  name_in_cycle id none = id_text id
  name_in_cycle id (some node) = node.name

  abbrev pub cycle_error : ℕ → List ℕ → String
  cycle_error id chain = concat (
      "Circular dependency detected: "
      ∷ joined " -> " (map (λ c. name_in_cycle c (find c catalog)) (from_id id chain))
      ∷ [])

  abbrev pub missing_error : ℕ → String
  missing_error id = concat (
      "A selected application depends on application '"
      ∷ id_text id
      ∷ "', which does not exist."
      ∷ [])

  abbrev pub add_error : String → Search → Search
  add_error e s = record s { errors = s.errors ++ e ∷ [] }

  -- The loop over identifiers; none where a visit has run out of fuel.
  unfoldable pub visit_each : (ℕ → Search → Option Search) → List ℕ → Search → Option Search
  visit_each visit [] s = some s
  visit_each visit (id ∷ ids) s = elim (visit id s) [
    | none ↦ none
    | some t ↦ visit_each visit ids t
  ]

  abbrev pub push : ℕ → Search → Search
  push id s = record s { color = painted s.color id gray; chain = s.chain ++ id ∷ [] }

  abbrev pub leave : ℕ → AppNode → Search → Search
  leave id node s = record s {
    chain = without_last s.chain;
    color = painted s.color id black;
    required = s.required ++ (id, node) ∷ [];
  }

  abbrev pub left : ℕ → AppNode → Option Search → Option Search
  left id node none = none
  left id node (some s) = some (leave id node s)

  -- visit(app_id), by its colour and its entry of the catalogue; `visit` visits a dependency.
  unfoldable pub enter :
      (ℕ → Search → Option Search) → ℕ → Color → Option AppNode → Search → Option Search
  unfolding visit_each
  enter visit id black entry s = some s
  enter visit id gray entry s = some (add_error (cycle_error id s.chain) s)
  enter visit id white none s = some (paint id black (add_error (missing_error id) s))
  enter visit id white (some node) s =
      left id node (visit_each visit (sort_ids node.dependency_ids) (push id s))

  unfoldable pub visit : ℕ → ℕ → Search → Option Search
  unfolding enter
  visit zero id s = none
  visit (suc fuel) id s = enter (visit fuel) id (s.color id) (find id catalog) s
