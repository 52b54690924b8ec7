-- ===== src/Applications/Catalog.antt =====
-- AppNode and the catalogue of backend/app/services/applications/resolver.py. A UUID is its
-- number, so that the order of `str` on UUIDs is that of the numbers.
use Prim.Native.Nat.{Ordering}
use Prim.Native.String
use infra_ops.Prelude.{
  ℕ, String, Bool, true, false, List, [], ◌∷◌, Option, none, some, leb, ◌==◌, if◌then◌else◌,
}

pub record AppNode : Type 0 where
  pub id : ℕ
  pub name : String
  pub enabled : Bool
  pub dependency_ids : List ℕ

-- A dict from identifiers to applications.
abbrev pub Catalog : Type 0
Catalog = List (ℕ × AppNode)

-- catalog.get(app_id)
unfoldable pub find : ℕ → Catalog → Option AppNode
find id [] = none
find id ((key, node) ∷ catalog) =
    let rest = find id catalog in if key == id then some node else rest

abbrev pub keys : Catalog → List ℕ
keys [] = []
keys ((key, node) ∷ catalog) = key ∷ keys catalog

abbrev pub insert_id : ℕ → List ℕ → List ℕ
insert_id id [] = id ∷ []
insert_id id (other ∷ ids) =
    let rest = insert_id id ids in if leb id other then id ∷ other ∷ ids else other ∷ rest

-- sorted(ids, key=str)
unfoldable pub sort_ids : List ℕ → List ℕ
sort_ids [] = []
sort_ids (id ∷ ids) = insert_id id (sort_ids ids)

abbrev not_after : String → String → Bool
not_after s t = elim (String.compare s t) [ Ordering.gt ↦ false | _ ↦ true ]

-- The stable insertion of an identifier by the name that `names` gives it.
abbrev pub insert_by : (ℕ → String) → ℕ → List ℕ → List ℕ
insert_by names id [] = id ∷ []
insert_by names id (other ∷ ids) =
    let rest = insert_by names id ids in
    if not_after (names id) (names other) then id ∷ other ∷ ids else other ∷ rest

unfoldable pub sort_by : (ℕ → String) → List ℕ → List ℕ
sort_by names [] = []
sort_by names (id ∷ ids) = insert_by names id (sort_by names ids)
