-- ===== src/Applications/Closed.antt =====
-- What the search of backend/app/services/applications/resolver.py collects when it meets no
-- error: applications of the catalogue, each once, closed under their dependencies.
use infra_ops.Prelude.{
  ℕ, zero, suc, ◌≤◌, String, ◌≡◌, refl, List, [], ◌∷◌, ◌++◌, arith, ◌==◌, Option, none, some, All,
  Bool-cases, inl, inr, sym, ◌∙◌, ap, Option-cases, subst,
}
use infra_ops.Applications.Catalog.{AppNode, Catalog, find, keys, sort_ids}
use infra_ops.Applications.Counts.{count, count-append}
use infra_ops.Applications.Search.{
  Color, white, gray, black, Search, painted, visit, visit_each, enter, push, leave, left, start,
}
use infra_ops.Applications.Quiet.{not_grown, Keeps, visit_each-Keeps, visit-Keeps}
use infra_ops.Applications.Depends.{keys-find}
use infra_ops.Applications.Found.{
  paint_others, count-keys, find_old, find_new, find_either, keys-append, stays_black, AllBlack-map,
  AllBlack-sort_ids, InCatalog-snoc, AllBlack, InCatalog,
}

abbrev or_search : Search → Option Search → Search
or_search s none = s
or_search s (some t) = t

some_same : (s t : Search) → ◌≡◌ {A = Option Search} (some s) (some t) → s ≡ t
some_same s t e = ap (or_search s) e

module _ (id_text : ℕ → String) (catalog : Catalog) where
  abbrev pub IsClosed : Search → Type 0
  IsClosed s =
      ((x : ℕ) → s.color x ≡ black → (n : AppNode) × (find x s.required ≡ some n))
      × ((x : ℕ) (n : AppNode)
          → find x s.required ≡ some n
          → (find x catalog ≡ some n) × (s.color x ≡ black) × AllBlack s.color n.dependency_ids)
      × ((x : ℕ) → count x (keys s.required) ≤ 1)
      × InCatalog catalog [] s.required

  -- What a call without errors leaves as it was.
  abbrev After : Search → Search → Type 0
  After s t =
      IsClosed t
      × ((x : ℕ) → s.color x ≡ black → t.color x ≡ black)
      × ((x : ℕ) → s.color x ≡ gray → t.color x ≡ gray)

  abbrev VisitsWell : (ℕ → Search → Option Search) → Type 0
  VisitsWell v =
      (id : ℕ) (s t : Search)
      → v id s ≡ some t
      → t.errors ≡ []
      → IsClosed s
      → After s t × (t.color id ≡ black)

  each_inverted :
      (v : ℕ → Search → Option Search) (ids : List ℕ) (t : Search) (o : Option Search)
      → elim o [ none ↦ none | some u ↦ visit_each id_text catalog v ids u ] ≡ some t
      → (u : Search) × (o ≡ some u) × (visit_each id_text catalog v ids u ≡ some t)
  each_inverted v ids t none e = ground arith
  each_inverted v ids t (some u) e = (u, refl, e)

  left_inverted :
      (id : ℕ) (node : AppNode) (t : Search) (o : Option Search)
      → left id_text catalog id node o ≡ some t
      → (u : Search) × (o ≡ some u) × (leave id_text catalog id node u ≡ t)
  left_inverted id node t none e = ground arith
  left_inverted id node t (some u) e = (u, refl, some_same _ _ e)

  each_well :
      (v : ℕ → Search → Option Search)
      → VisitsWell v
      → ((id : ℕ) (s : Search) → Keeps id_text catalog s (v id s))
      → (ids : List ℕ) (s t : Search) → visit_each id_text catalog v ids s ≡ some t
      → t.errors ≡ []
      → IsClosed s
      → After s t × AllBlack t.color ids
  unfolding visit_each
  each_well v well keeps [] s t e q c =
      subst (λ w. After s w × AllBlack w.color []) (some_same s t e)
        ((c, (λ x b. b), (λ x b. b)), tt)
  each_well v well keeps (id ∷ ids) s t e q c =
      let (u, f, rest) = each_inverted v ids t (v id s) e in
      let qu : u.errors ≡ [] =
        subst (Keeps id_text catalog u) (rest) (visit_each-Keeps id_text catalog v keeps ids u) q in
      let (first, here) = well id s u f qu c in
      let (more, others) = each_well v well keeps ids u t rest q first.0 in
      (
        (more.0, (λ x b. more.1 x (first.1 x b)), (λ x b. more.2 x (first.2 x b))),
        (more.1 id here, others),
      )

  not_required : (s : Search) (id : ℕ) → IsClosed s → s.color id ≡ gray → find id s.required ≡ none
  not_required s id c g = elim (Option-cases (find id s.required)) [
    | inl e ↦ e
    | inr (n, e) ↦ let b = (c.1 id n e).1 in absurd (ground (arith, b, g))
  ]

  push-IsClosed :
      (id : ℕ) (s : Search) → s.color id ≡ white → IsClosed s → IsClosed (push id_text catalog id s)
  push-IsClosed id s w c =
      let still = λ (x : ℕ) (b : s.color x ≡ black).
        paint_others s.color id x gray black b (λ h. ground (arith, h, w)) in
      (
        (λ x b. c.0 x (ground (arith, b))),
        (λ x n e.
            let (f, b, a) = c.1 x n e in
            (f, still x b, AllBlack-map s.color _ still n.dependency_ids a)),
        c.2,
        c.3,
      )

  leave_finds :
      (id : ℕ) (node : AppNode) (u : Search)
      → u.color id ≡ gray
      → IsClosed u
      → (x : ℕ) → (leave id_text catalog id node u).color x ≡ black
      → (n : AppNode) × (find x (leave id_text catalog id node u).required ≡ some n)
  leave_finds id node u g c x b = elim (Bool-cases (x == id)) [
    | inl q ↦
        let k : x ≡ id = ground arith in
        (node, rw k (find_new id node u.required (not_required u id c g)))
    | inr q ↦ let (n, e) = c.0 x (ground (arith, q, b)) in (n, find_old x id node n u.required e)
  ]

  leave_entry :
      (id : ℕ) (node : AppNode) (u : Search)
      → IsClosed u
      → find id catalog ≡ some node
      → AllBlack u.color node.dependency_ids
      → (x : ℕ) (n : AppNode) → find x (leave id_text catalog id node u).required ≡ some n
      → (find x catalog ≡ some n)
        × ((leave id_text catalog id node u).color x ≡ black)
        × AllBlack (leave id_text catalog id node u).color n.dependency_ids
  leave_entry id node u c f a x n e =
      let still = λ (y : ℕ) (b : u.color y ≡ black). stays_black u.color id y b in
      elim (find_either x id node n u.required e) [
        | inl old ↦
            let (g, b, l) = c.1 x n old in
            (g, still x b, AllBlack-map u.color _ still n.dependency_ids l)
        | inr (k, same) ↦ (
          rw k (subst (λ m. find id catalog ≡ some m) same f),
          rw k (ground arith),
          subst (λ (m : AppNode). AllBlack (leave id_text catalog id node u).color m.dependency_ids)
              same (AllBlack-map u.color _ still node.dependency_ids a),
        )
      ]

  leave_once :
      (id : ℕ) (node : AppNode) (u : Search)
      → u.color id ≡ gray
      → IsClosed u
      → (x : ℕ) → count x (keys (leave id_text catalog id node u).required) ≤ 1
  leave_once id node u g c x =
      let new : count id (keys u.required) ≡ 0 = count-keys id u.required (not_required u id c g) in
      let old = c.2 x in
      let sum = count-append x (keys u.required) (id ∷ []) in
      rw (keys-append id node u.required) (elim (Bool-cases (id == x)) [
        | inl q ↦
            let k : x ≡ id = ground arith in
            let newx : count x (keys u.required) ≡ 0 = rw k new in ground (arith, sum, newx)
        | inr q ↦ ground (arith, sum, old, q)
      ])

  stays_gray :
      (s u : Search) (id x : ℕ)
      → s.color id ≡ white
      → s.color x ≡ gray
      → (painted s.color id gray x ≡ gray → u.color x ≡ gray)
      → painted u.color id black x ≡ gray
  stays_gray s u id x w g keep = elim (Bool-cases (x == id)) [
    | inl q ↦
        let k : x ≡ id = ground arith in
        let gid : s.color id ≡ gray = rw (sym k) g in absurd (ground (arith, gid, w))
    | inr q ↦ rw q (keep (rw q g))
  ]

  deps_found :
      (u : Search)
      → IsClosed u
      → (deps : List ℕ) → AllBlack u.color deps
      → All (λ d. 1 ≤ count d (keys u.required ++ [])) deps
  deps_found u c [] a = tt
  deps_found u c (d ∷ deps) (a, rest) =
      let (n, e) = c.0 d a in
      (
        omega (arith, keys-find d n u.required e, count-append d (keys u.required) []),
        deps_found u c deps rest,
      )

  enter_well :
      (v : ℕ → Search → Option Search)
      → VisitsWell v
      → ((id : ℕ) (s : Search) → Keeps id_text catalog s (v id s))
      → (id : ℕ) (k : Color) (entry : Option AppNode) (s t : Search) → s.color id ≡ k
      → find id catalog ≡ entry
      → enter id_text catalog v id k entry s ≡ some t
      → t.errors ≡ []
      → IsClosed s
      → After s t × (t.color id ≡ black)
  unfolding enter
  enter_well v well keeps id black entry s t ec ef e q c =
      subst (λ w. After s w × (w.color id ≡ black)) (some_same s t e)
        ((c, (λ x b. b), (λ x b. b)), ec)
  enter_well v well keeps id gray entry s t ec ef e q c =
      absurd (not_grown _ _ (ap (λ w. w.errors) (some_same _ t e) ∙ q))
  enter_well v well keeps id white none s t ec ef e q c =
      absurd (not_grown _ _ (ap (λ w. w.errors) (some_same _ t e) ∙ q))
  enter_well v well keeps id white (some node) s t ec ef e q c =
      let (u, f, same) = left_inverted id node t _ e in
      let qu : u.errors ≡ [] = ap (λ w. w.errors) same ∙ q in
      let (after, deps) =
        each_well v well keeps (sort_ids node.dependency_ids) (push id_text catalog id s) u f qu
          (push-IsClosed id s ec c) in
      let open_ : u.color id ≡ gray = after.2 id (ground arith) in
      let black_deps = AllBlack-sort_ids u.color node.dependency_ids deps in
      subst (λ w. After s w × (w.color id ≡ black)) same
        (
          (
            (
              leave_finds id node u open_ after.0,
              leave_entry id node u after.0 ef black_deps,
              leave_once id node u open_ after.0,
              InCatalog-snoc catalog [] u.required id node after.0.3 ef
                  (deps_found u after.0 node.dependency_ids black_deps),
            ),
            (λ x b.
                stays_black u.color id x (
                  after.1 x (paint_others s.color id x gray black b (λ h. ground (arith, h, ec))))),
            (λ x g. stays_gray s u id x ec g (after.2 x)),
          ),
          ground arith,
        )

  visit_well : (fuel : ℕ) → VisitsWell (visit id_text catalog fuel)
  unfolding visit
  visit_well zero id s t e q c = ground arith
  visit_well (suc fuel) id s t e q c =
      enter_well (visit id_text catalog fuel) (visit_well fuel) (visit-Keeps id_text catalog fuel)
        id (s.color id) (find id catalog) s t refl refl e q c

  start-IsClosed : IsClosed start
  unfolding start find
  start-IsClosed =
      ((λ x b. ground (arith, b)), (λ x n e. ground (arith, e)), (λ x. omega arith), tt)

  -- A search that ends without an error has collected the selected applications, with a set that
  -- is closed under dependencies.
  pub search-IsClosed :
      (fuel : ℕ) (selected : List ℕ) (t : Search)
      → visit_each id_text catalog (visit id_text catalog fuel) selected start ≡ some t
      → t.errors ≡ []
      → IsClosed t × AllBlack t.color selected
  search-IsClosed fuel selected t e q =
      let (after, blacks) =
        each_well (visit id_text catalog fuel) (visit_well fuel) (visit-Keeps id_text catalog fuel)
          selected start t e q start-IsClosed in
      (after.0, blacks)
