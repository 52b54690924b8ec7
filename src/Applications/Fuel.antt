-- ===== src/Applications/Fuel.antt =====
-- The search of backend/app/services/applications/resolver.py ends: a visit of an unvisited
-- application leaves fewer of the catalogue unvisited.
use infra_ops.Prelude.{
  ℕ, zero, suc, ◌≤◌, ◌<◌, String, ◌≡◌, refl, Bool, true, false, List, [], ◌∷◌, arith, length, ◌==◌,
  if◌then◌else◌, Option, none, some, Bool-cases, inl, inr,
}
use infra_ops.Applications.Catalog.{AppNode, Catalog, find, sort_ids}
use infra_ops.Applications.Search.{
  Color, white, gray, black, Search, painted, visit, visit_each, enter, start, push, leave, left,
}

abbrev is_white : Color → Bool
is_white white = true
is_white _ = false

-- How many entries of the catalogue the search has not visited.
abbrev whites : (ℕ → Color) → Catalog → ℕ
whites color [] = 0
whites color ((key, node) ∷ catalog) =
    let rest = whites color catalog in if is_white (color key) then suc rest else rest

whites-le-length : (color : ℕ → Color) (catalog : Catalog) → whites color catalog ≤ length catalog
whites-le-length color [] = omega arith
whites-le-length color ((key, node) ∷ catalog) = ground (arith, whites-le-length color catalog)

whites-painted-le :
    (color : ℕ → Color) (id : ℕ) (c : Color) (catalog : Catalog)
    → is_white c ≡ false
    → whites (painted color id c) catalog ≤ whites color catalog
whites-painted-le color id c [] h = omega arith
whites-painted-le color id c ((key, node) ∷ catalog) h =
    ground (arith, whites-painted-le color id c catalog h)

whites-painted-lt :
    (color : ℕ → Color) (id : ℕ) (c : Color) (node : AppNode) (catalog : Catalog)
    → is_white c ≡ false
    → color id ≡ white
    → find id catalog ≡ some node
    → whites (painted color id c) catalog < whites color catalog
unfolding find
whites-painted-lt color id c node [] h w e = ground arith
whites-painted-lt color id c node ((key, entry) ∷ catalog) h w e = elim (Bool-cases (key == id)) [
  | inl q ↦
      let k : key ≡ id = ground arith in
      let wk : color key ≡ white = rw k w in ground (arith, whites-painted-le color id c catalog h)
  | inr q ↦ ground (arith, whites-painted-lt color id c node catalog h w, e)
]

module _ (id_text : ℕ → String) (catalog : Catalog) where
  -- A call that returns, with no more of the catalogue unvisited than before.
  abbrev Ends : Search → Option Search → Type 0
  Ends s o = (t : Search) × (o ≡ some t) × (whites t.color catalog ≤ whites s.color catalog)

  abbrev EndsBelow : ℕ → (ℕ → Search → Option Search) → Type 0
  EndsBelow n v = (id : ℕ) (s : Search) → whites s.color catalog < n → Ends s (v id s)

  each_after :
      (v : ℕ → Search → Option Search) (ids : List ℕ) (s : Search) (o : Option Search)
      → Ends s o
      → ((t : Search)
          → whites t.color catalog ≤ whites s.color catalog
          → Ends t (visit_each id_text catalog v ids t))
      → Ends s (elim o [ none ↦ none | some t ↦ visit_each id_text catalog v ids t ])
  each_after v ids s none (t, e, l) rest = ground arith
  each_after v ids s (some u) (t, e, l) rest =
      let lu : whites u.color catalog ≤ whites s.color catalog = ground arith in
      let (w, f, m) = rest u lu in (w, f, omega arith)

  visit_each-Ends :
      (v : ℕ → Search → Option Search) (n : ℕ)
      → EndsBelow n v
      → (ids : List ℕ) (s : Search) → whites s.color catalog < n
      → Ends s (visit_each id_text catalog v ids s)
  unfolding visit_each
  visit_each-Ends v n below [] s l = (s, refl, omega arith)
  visit_each-Ends v n below (id ∷ ids) s l =
      each_after v ids s (v id s) (below id s l)
        (λ t m. visit_each-Ends v n below ids t (omega arith))

  left-Ends :
      (id : ℕ) (node : AppNode) (s t : Search) (o : Option Search)
      → whites t.color catalog ≤ whites s.color catalog
      → Ends t o
      → Ends s (left id_text catalog id node o)
  left-Ends id node s t none l (u, e, m) = ground arith
  left-Ends id node s t (some w) l (u, e, m) =
      let p = whites-painted-le w.color id black catalog refl in
      let q : whites w.color catalog ≤ whites t.color catalog = ground arith in
      (leave id_text catalog id node w, refl, omega arith)

  enter-Ends :
      (v : ℕ → Search → Option Search) (n : ℕ)
      → EndsBelow n v
      → (id : ℕ) (s : Search) (c : Color) (entry : Option AppNode) → s.color id ≡ c
      → find id catalog ≡ entry
      → whites s.color catalog < suc n
      → Ends s (enter id_text catalog v id c entry s)
  unfolding enter
  enter-Ends v n below id s black entry ec ef l = (s, refl, omega arith)
  enter-Ends v n below id s gray entry ec ef l = (_, refl, omega arith)
  enter-Ends v n below id s white none ec ef l =
      (_, refl, whites-painted-le s.color id black catalog refl)
  enter-Ends v n below id s white (some node) ec ef l =
      let p = whites-painted-lt s.color id gray node catalog refl ec ef in
      left-Ends id node s (push id_text catalog id s) _ (omega arith) (
        visit_each-Ends v n below (sort_ids node.dependency_ids) (push id_text catalog id s)
          (omega arith))

  visit-Ends : (fuel : ℕ) → EndsBelow fuel (visit id_text catalog fuel)
  unfolding visit
  visit-Ends zero id s l = absurd (omega arith)
  visit-Ends (suc fuel) id s l =
      enter-Ends (visit id_text catalog fuel) fuel (visit-Ends fuel) id s (s.color id)
        (find id catalog) refl refl l

  -- As many levels as there are applications, and one more, are enough for the whole search.
  pub search_ends :
      (selected : List ℕ)
      → (t : Search) × (visit_each id_text catalog
            (visit id_text catalog (suc (length catalog)))
            selected
            start
          ≡ some t)
  search_ends selected =
      let n = suc (length catalog) in
      let (t, e, l) =
        visit_each-Ends (visit id_text catalog n) n (visit-Ends n) selected start
          (omega (arith, whites-le-length start.color catalog)) in
      (t, e)
