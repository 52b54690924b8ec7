-- ===== src/Applications/Quiet.antt =====
-- Errors of the search of backend/app/services/applications/resolver.py are kept: a call that
-- ends with no error began with none.
use infra_ops.Prelude.{
  ℕ, zero, suc, String, ◌≡◌, ◌≢◌, List, [], ◌∷◌, ◌++◌, arith, Option, none, some,
}
use infra_ops.Applications.Catalog.{AppNode, Catalog, find, sort_ids}
use infra_ops.Applications.Search.{
  Color, white, gray, black, Search, visit, visit_each, enter, push, left,
}

pub not_grown : (es : List String) (e : String) → es ++ e ∷ [] ≢ []
not_grown [] e h = ground arith
not_grown (x ∷ es) e h = ground arith

module _ (id_text : ℕ → String) (catalog : Catalog) where
  -- What a call that returned says of the errors before it.
  abbrev pub Keeps : Search → Option Search → Type 0
  Keeps s none = Unit
  Keeps s (some t) = t.errors ≡ [] → s.errors ≡ []

  abbrev KeepsAll : (ℕ → Search → Option Search) → Type 0
  KeepsAll v = (id : ℕ) (s : Search) → Keeps s (v id s)

  Keeps-after :
      (s t : Search) (o : Option Search) → (t.errors ≡ [] → s.errors ≡ []) → Keeps t o → Keeps s o
  Keeps-after s t none f g = tt
  Keeps-after s t (some u) f g = λ h. f (g h)

  each-Keeps :
      (v : ℕ → Search → Option Search) (ids : List ℕ) (s : Search) (o : Option Search)
      → Keeps s o
      → ((t : Search) → Keeps t (visit_each id_text catalog v ids t))
      → Keeps s (elim o [ none ↦ none | some t ↦ visit_each id_text catalog v ids t ])
  each-Keeps v ids s none k rest = tt
  each-Keeps v ids s (some t) k rest = Keeps-after s t _ k (rest t)

  pub visit_each-Keeps :
      (v : ℕ → Search → Option Search)
      → KeepsAll v
      → (ids : List ℕ) (s : Search) → Keeps s (visit_each id_text catalog v ids s)
  unfolding visit_each
  visit_each-Keeps v all [] s = λ h. h
  visit_each-Keeps v all (id ∷ ids) s =
      each-Keeps v ids s (v id s) (all id s) (visit_each-Keeps v all ids)

  left-Keeps :
      (id : ℕ) (node : AppNode) (s : Search) (o : Option Search)
      → Keeps s o
      → Keeps s (left id_text catalog id node o)
  left-Keeps id node s none k = tt
  left-Keeps id node s (some t) k = k

  enter-Keeps :
      (v : ℕ → Search → Option Search)
      → KeepsAll v
      → (id : ℕ) (c : Color) (entry : Option AppNode) (s : Search)
      → Keeps s (enter id_text catalog v id c entry s)
  unfolding enter
  enter-Keeps v all id black entry s = λ h. h
  enter-Keeps v all id gray entry s = λ h. absurd (not_grown _ _ h)
  enter-Keeps v all id white none s = λ h. absurd (not_grown _ _ h)
  enter-Keeps v all id white (some node) s =
      left-Keeps id node s _
        (visit_each-Keeps v all (sort_ids node.dependency_ids) (push id_text catalog id s))

  pub visit-Keeps : (fuel : ℕ) → KeepsAll (visit id_text catalog fuel)
  unfolding visit
  visit-Keeps zero id s = tt
  visit-Keeps (suc fuel) id s =
      enter-Keeps (visit id_text catalog fuel) (visit-Keeps fuel) id (s.color id) (find id catalog)
        s
