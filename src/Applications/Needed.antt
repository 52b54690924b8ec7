-- ===== src/Applications/Needed.antt =====
-- The search of backend/app/services/applications/resolver.py collects nothing that is not needed.
use infra_ops.Prelude.{
  ℕ, zero, suc, Bool, true, false, String, ◌≡◌, refl, sym, subst, List, [], ◌∷◌, ◌++◌,
  if◌then◌else◌, Option, none, some, All, leb,
}
use infra_ops.Applications.Catalog.{AppNode, Catalog, find, keys, sort_ids, insert_id}
use infra_ops.Applications.Found.{keys-append}
use infra_ops.Applications.Search.{
  Color, white, gray, black, Search, visit, visit_each, enter, push, left, start,
}

module _ (P : ℕ → Type 0) where
  All-snoc : (xs : List ℕ) (x : ℕ) → All P xs → P x → All P (xs ++ x ∷ [])
  All-snoc [] x a p = (p, tt)
  All-snoc (y ∷ xs) x (b, a) p = (b, All-snoc xs x a p)

  All-if :
      (b : Bool) (id other : ℕ) (ids rest : List ℕ)
      → All P (id ∷ other ∷ ids)
      → All P (other ∷ rest)
      → All P (if b then id ∷ other ∷ ids else other ∷ rest)
  All-if true id other ids rest h k = h
  All-if false id other ids rest h k = k

  All-insert_id : (id : ℕ) (ids : List ℕ) → P id → All P ids → All P (insert_id id ids)
  All-insert_id id [] p a = (p, tt)
  All-insert_id id (other ∷ ids) p (q, a) =
      All-if (leb id other) id other ids _ (p, (q, a)) (q, All-insert_id id ids p a)

  All-sort_ids : (ids : List ℕ) → All P ids → All P (sort_ids ids)
  unfolding sort_ids
  All-sort_ids [] a = tt
  All-sort_ids (id ∷ ids) (p, a) = All-insert_id id (sort_ids ids) p (All-sort_ids ids a)

  module _ (id_text : ℕ → String) (catalog : Catalog)
      (closed : (x : ℕ) (n : AppNode)
        → find x catalog ≡ some n
        → P x
        → All P n.dependency_ids) where
    -- What a call that returned has collected, where that before it is needed.
    abbrev Collects : Search → Option Search → Type 0
    Collects s none = Unit
    Collects s (some t) = All P (keys s.required) → All P (keys t.required)

    abbrev CollectsAll : (ℕ → Search → Option Search) → Type 0
    CollectsAll v = (id : ℕ) (s : Search) → P id → Collects s (v id s)

    then-Collects :
        (s t : Search) (o : Option Search)
        → (All P (keys s.required) → All P (keys t.required))
        → Collects t o
        → Collects s o
    then-Collects s t none f g = tt
    then-Collects s t (some u) f g = λ h. g (f h)

    each-Collects :
        (v : ℕ → Search → Option Search) (ids : List ℕ) (s : Search) (o : Option Search)
        → Collects s o
        → ((t : Search) → Collects t (visit_each id_text catalog v ids t))
        → Collects s (elim o [ none ↦ none | some t ↦ visit_each id_text catalog v ids t ])
    each-Collects v ids s none k rest = tt
    each-Collects v ids s (some t) k rest = then-Collects s t _ k (rest t)

    visit_each-Collects :
        (v : ℕ → Search → Option Search)
        → CollectsAll v
        → (ids : List ℕ) → All P ids
        → (s : Search) → Collects s (visit_each id_text catalog v ids s)
    unfolding visit_each
    visit_each-Collects v all [] a s = λ h. h
    visit_each-Collects v all (id ∷ ids) (p, a) s =
        each-Collects v ids s (v id s) (all id s p) (visit_each-Collects v all ids a)

    left-Collects :
        (id : ℕ) (node : AppNode) (s : Search) (o : Option Search)
        → P id
        → Collects s o
        → Collects s (left id_text catalog id node o)
    left-Collects id node s none p k = tt
    left-Collects id node s (some t) p k = λ h.
        subst (All P) (sym (keys-append id node t.required)) (All-snoc (keys t.required) id (k h) p)

    enter-Collects :
        (v : ℕ → Search → Option Search)
        → CollectsAll v
        → (id : ℕ) (c : Color) (entry : Option AppNode) (s : Search) → find id catalog ≡ entry
        → P id
        → Collects s (enter id_text catalog v id c entry s)
    unfolding enter
    enter-Collects v all id black entry s e p = λ h. h
    enter-Collects v all id gray entry s e p = λ h. h
    enter-Collects v all id white none s e p = λ h. h
    enter-Collects v all id white (some node) s e p = left-Collects id node s _ p (
        visit_each-Collects v all (sort_ids node.dependency_ids)
          (All-sort_ids node.dependency_ids (closed id node e p)) (push id_text catalog id s))

    visit-Collects : (fuel : ℕ) → CollectsAll (visit id_text catalog fuel)
    unfolding visit
    visit-Collects zero id s p = tt
    visit-Collects (suc fuel) id s p =
        enter-Collects (visit id_text catalog fuel) (visit-Collects fuel) id (s.color id)
          (find id catalog) s refl p

    -- What holds of the selected applications and passes to dependencies holds of all collected.
    pub search_needed :
        (fuel : ℕ) (selected : List ℕ) (t : Search)
        → All P selected
        → visit_each id_text catalog (visit id_text catalog fuel) selected start ≡ some t
        → All P (keys t.required)
    unfolding start
    search_needed fuel selected t a e =
        subst (Collects start) e
          (visit_each-Collects (visit id_text catalog fuel) (visit-Collects fuel) selected a start)
          tt
