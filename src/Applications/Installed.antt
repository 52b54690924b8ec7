-- ===== src/Applications/Installed.antt =====
-- What resolve_install_order of backend/app/services/applications/resolver.py returns.
use infra_ops.Prelude.{
  ℕ, suc, ◌≤◌, ◌≡◌, ◌≢◌, refl, sym, ap, subst, String, true, List, [], ◌∷◌, ◌++◌, map, arith, ◌==◌,
  Option, none, some, length, All, Bool-cases, inl, inr, ◌∙◌,
}
use infra_ops.Applications.Catalog.{AppNode, Catalog, find, keys}
use infra_ops.Applications.Counts.{count, within-length}
use infra_ops.Applications.Search.{Search, start, visit, visit_each}
use infra_ops.Applications.Edges.{inside}
use infra_ops.Applications.Depends.{find-keys, keys-find, deps_in, Settled, DependsFirst}
use infra_ops.Applications.Found.{AllBlack}
use infra_ops.Applications.Fuel.{search_ends}
use infra_ops.Applications.Closed.{IsClosed, search-IsClosed}
use infra_ops.Applications.Needed.{search_needed}
use infra_ops.Applications.Complete.{sort_required-Sorted, all_placed, length-keys}
use infra_ops.Applications.Resolve.{
  Resolution, disabled_errors, node_onto, nodes_of, sort_required, order_found, searched,
  resolve_install_order,
}

-- The keys of the dict are the identifiers of its applications.
abbrev pub IsKeyed : Catalog → Type 0
IsKeyed [] = Unit
IsKeyed ((key, n) ∷ catalog) = (n.id ≡ key) × IsKeyed catalog

abbrev pub ids_of : List AppNode → List ℕ
ids_of nodes = map (λ n. n.id) nodes

-- Each application stands after all of its dependencies; `seen` stands before the list.
abbrev pub AfterDependencies : List ℕ → List AppNode → Type 0
AfterDependencies seen [] = Unit
AfterDependencies seen (n ∷ nodes) =
    All (λ d. 1 ≤ count d seen) n.dependency_ids × AfterDependencies (n.id ∷ seen) nodes

keyed :
    (x : ℕ) (n : AppNode) (catalog : Catalog) → IsKeyed catalog → find x catalog ≡ some n → n.id ≡ x
unfolding find
keyed x n [] k e = ground arith
keyed x n ((key, m) ∷ catalog) (k, ks) e = ground (arith, keyed x n catalog ks, k, e)

or_result : Resolution → Option Resolution → Resolution
or_result r none = r
or_result r (some w) = w

result_same : (r w : Resolution) → ◌≡◌ {A = Option Resolution} (some r) (some w) → r ≡ w
unfolding or_result
result_same r w e = ap (or_result r) e

some_error : (x : String) (es : List String) → x ∷ es ≢ []
some_error x es h = ground arith

module _ (id_text : ℕ → String) (catalog : Catalog) where
  -- An order of all that the search collected.
  abbrev Covers : Catalog → List ℕ → Type 0
  Covers required ids =
      (sort_required required ≡ some ids)
      × DependsFirst required [] ids
      × ((x : ℕ) → count x ids ≡ count x (keys required))

  covered : (t : Search) → IsClosed id_text catalog t → (ids : List ℕ) × Covers t.required ids
  covered t (found, entry, once, inside_catalog) =
      let (ids, e, f, sub, stuck) = sort_required-Sorted t.required once in
      let there =
        all_placed t.required catalog ids (λ x n en. (entry x n en).0) stuck [] t.required
          inside_catalog (λ x. omega arith) (λ d l. absurd (omega (arith, l))) in
      (
        ids,
        (
          e,
          f,
          (λ x.
              let s = sub x in
              let o = once x in
              elim (Bool-cases (count x (keys t.required) == 0)) [
                | inl q ↦ ground (arith, s, q)
                | inr q ↦ let w = there x (ground (arith, q)) in omega (arith, s, o, w)
              ]),
        ),
      )

  covered_length :
      (required : Catalog) (ids : List ℕ)
      → ((x : ℕ) → count x ids ≡ count x (keys required))
      → (length ids == length required) ≡ true
  covered_length required ids same =
      let less = within-length ids (keys required) (λ x. let s = same x in omega (arith, s)) in
      let more = within-length (keys required) ids (λ x. let s = same x in omega (arith, s)) in
      ground (arith, less, more, length-keys required)

  resolved :
      (t : Search) (ids : List ℕ)
      → Covers t.required ids
      → order_found t.required [] ≡ some (record { ordered = nodes_of t.required ids; errors = [] })
  resolved t ids (e, f, same) = rw (e, covered_length t.required ids same) refl

  append_nil : (xs ys : List String) → xs ++ ys ≡ [] → (xs ≡ []) × (ys ≡ [])
  append_nil [] ys h = (refl, h)
  append_nil (x ∷ xs) ys h = ground arith

  abbrev pub search : List ℕ → Option Search
  search selected =
      visit_each id_text catalog (visit id_text catalog (suc (length catalog))) selected start

  found_errors :
      (selected : List ℕ) (t : Search)
      → search selected ≡ some t
      → (es : List String) → t.errors ++ disabled_errors t.required ≡ es
      → (r : Resolution) × (order_found t.required es ≡ some r) × (r.errors ≡ es)
  found_errors selected t e [] q =
      let quiet = append_nil t.errors (disabled_errors t.required) q in
      let (closed, blacks) = search-IsClosed id_text catalog _ selected t e quiet.0 in
      let (ids, c) = covered t closed in (_, resolved t ids c, refl)
  found_errors selected t e (x ∷ es) q = (_, refl, refl)

  -- resolve_install_order returns: the search ends within its depth, and the sort orders all that
  -- was collected, so that the errors are those of the search and of the disabled
  -- applications, and the internal consistency error never occurs.
  pub resolve_install_order_returns :
      (selected : List ℕ)
      → (t : Search) × (r : Resolution) × (search selected ≡ some t)
        × (resolve_install_order id_text selected catalog ≡ some r)
        × (r.errors ≡ t.errors ++ disabled_errors t.required)
  unfolding resolve_install_order
  resolve_install_order_returns selected =
      let (t, e) = search_ends id_text catalog selected in
      let (r, f, g) = found_errors selected t e _ refl in (t, r, e, rw e f, g)

  -- What the look-ups of an order give.
  abbrev Entries : Catalog → Type 0
  Entries required =
      (x : ℕ) (n : AppNode)
      → find x required ≡ some n
      → (n.id ≡ x)
        × (find x catalog ≡ some n)
        × (n.enabled ≡ true)
        × All (λ d. inside required d ≡ true) n.dependency_ids

  abbrev Found : Catalog → List ℕ → Type 0
  Found required ids = (x : ℕ) → 1 ≤ count x ids → (n : AppNode) × (find x required ≡ some n)

  Settled-All :
      (required : Catalog) (seen deps : List ℕ)
      → All (λ d. inside required d ≡ true) deps
      → Settled required seen deps
      → All (λ d. 1 ≤ count d seen) deps
  Settled-All required seen [] i s = tt
  Settled-All required seen (d ∷ deps) (i, is) (s, ss) = (s i, Settled-All required seen deps is ss)

  abbrev Installable : AppNode → Type 0
  Installable n = (find n.id catalog ≡ some n) × (n.enabled ≡ true)

  nodes_of_lem :
      (required : Catalog)
      → Entries required
      → (seen ids : List ℕ) → Found required ids
      → DependsFirst required seen ids
      → AfterDependencies seen (nodes_of required ids)
        × All Installable (nodes_of required ids)
        × (ids_of (nodes_of required ids) ≡ ids)
  unfolding nodes_of
  nodes_of_lem required entries seen [] found f = (tt, tt, refl)
  nodes_of_lem required entries seen (id ∷ ids) found (s, f) =
      let (n, e) = found id (ground arith) in
      let (k, c, b, i) = entries id n e in
      let (after, all_nodes, same) =
        nodes_of_lem required entries (id ∷ seen) ids (λ x l. found x (ground arith)) f in
      let settled : Settled required seen n.dependency_ids =
        subst (λ o. Settled required seen (deps_in o)) e s in
      subst
        (λ nodes. AfterDependencies seen nodes × All Installable nodes × (ids_of nodes ≡ id ∷ ids))
        (sym (ap (λ o. node_onto o (nodes_of required ids)) e))
        (
          (
            Settled-All required seen n.dependency_ids i settled,
            subst (λ j. AfterDependencies (j ∷ seen) (nodes_of required ids)) (sym k) after,
          ),
          ((subst (λ j. find j catalog ≡ some n) (sym k) c, b), all_nodes),
          ap (λ j. j ∷ ids_of (nodes_of required ids)) k ∙ ap (λ js. id ∷ js) same,
        )

  enabled_all :
      (x : ℕ) (n : AppNode) (required : Catalog)
      → disabled_errors required ≡ []
      → find x required ≡ some n
      → n.enabled ≡ true
  unfolding disabled_errors find
  enabled_all x n [] h e = ground arith
  enabled_all x n ((key, m) ∷ required) h e = elim (Bool-cases m.enabled) [
    | inl q ↦ ground (arith, q, h, e, enabled_all x n required)
    | inr q ↦ absurd (ground (arith, q, h))
  ]

  inside-All :
      (t : Search)
      → IsClosed id_text catalog t
      → (deps : List ℕ) → AllBlack t.color deps
      → All (λ d. inside t.required d ≡ true) deps
  inside-All t c [] a = tt
  inside-All t c (d ∷ deps) (a, rest) =
      let (n, e) = c.0 d a in (rw e refl, inside-All t c deps rest)

  Entries-of :
      (t : Search)
      → IsKeyed catalog
      → IsClosed id_text catalog t
      → disabled_errors t.required ≡ []
      → Entries t.required
  Entries-of t k c h x n e =
      let (f, b, deps) = c.1 x n e in
      (
        keyed x n catalog k f,
        f,
        enabled_all x n t.required h e,
        inside-All t c n.dependency_ids deps,
      )

  -- What a resolution without errors says: every application after its dependencies, each
  -- enabled and of the catalogue, no one twice, every selected one there, and none that some
  -- property of the selected ones that passes to dependencies does not have.
  abbrev pub Installs : List ℕ → List AppNode → Type 1
  Installs selected nodes =
      AfterDependencies [] nodes
      × All (λ n. (find n.id catalog ≡ some n) × (n.enabled ≡ true)) nodes
      × ((x : ℕ) → count x (ids_of nodes) ≤ 1)
      × All (λ x. count x (ids_of nodes) ≡ 1) selected
      × ((P : ℕ → Type 0)
          → ((x : ℕ) (n : AppNode) → find x catalog ≡ some n → P x → All P n.dependency_ids)
          → All P selected
          → (x : ℕ) → 1 ≤ count x (ids_of nodes)
          → P x)

  holds_at : (P : ℕ → Type 0) (xs : List ℕ) → All P xs → (x : ℕ) → 1 ≤ count x xs → P x
  holds_at P [] a x l = absurd (omega arith)
  holds_at P (y ∷ xs) (p, a) x l = elim (Bool-cases (y == x)) [
    | inl q ↦ let k : y ≡ x = ground arith in subst P k p
    | inr q ↦ holds_at P xs a x (ground (arith, q, l))
  ]

  selected_once :
      (t : Search) (ids : List ℕ)
      → IsClosed id_text catalog t
      → ((x : ℕ) → count x ids ≡ count x (keys t.required))
      → (selected : List ℕ) → AllBlack t.color selected
      → All (λ x. count x ids ≡ 1) selected
  selected_once t ids c same [] a = tt
  selected_once t ids c same (x ∷ selected) (a, rest) =
      let (n, e) = c.0 x a in
      let s = same x in
      let o = c.2 x in
      (omega (arith, keys-find x n t.required e, s, o), selected_once t ids c same selected rest)

  installs :
      (selected : List ℕ) (t : Search) (ids : List ℕ)
      → search selected ≡ some t
      → IsKeyed catalog
      → IsClosed id_text catalog t
      → AllBlack t.color selected
      → disabled_errors t.required ≡ []
      → Covers t.required ids
      → Installs selected (nodes_of t.required ids)
  installs selected t ids e k c a h (f, depends, same) =
      let found = λ (x : ℕ) (l : 1 ≤ count x ids).
        let s = same x in find-keys x t.required (omega (arith, s, l)) in
      let (after, all_nodes, names) =
        nodes_of_lem t.required (Entries-of t k c h) [] ids found depends in
      rw names (
        after,
        all_nodes,
        (λ x. let s = same x in let o = c.2 x in omega (arith, s, o)),
        selected_once t ids c same selected a,
        (λ P closed p x l.
            let s = same x in
            holds_at P (keys t.required)
              (search_needed P id_text catalog closed (suc (length catalog)) selected t p e) x
              (omega (arith, s, l))),
      )

  from_found :
      (selected : List ℕ) (t : Search)
      → search selected ≡ some t
      → IsKeyed catalog
      → (es : List String) → t.errors ++ disabled_errors t.required ≡ es
      → (r : Resolution) → order_found t.required es ≡ some r
      → r.errors ≡ []
      → Installs selected r.ordered
  from_found selected t e k [] q r f h =
      let quiet = append_nil t.errors (disabled_errors t.required) q in
      let (closed, blacks) = search-IsClosed id_text catalog _ selected t e quiet.0 in
      let (ids, c) = covered t closed in
      let same = result_same _ r (sym (resolved t ids c) ∙ f) in
      subst (λ (w : Resolution). Installs selected w.ordered) same
        (installs selected t ids e k closed blacks quiet.1 c)
  from_found selected t e k (x ∷ es) q r f h =
      let same = result_same _ r f in
      absurd (some_error x es (ap (λ (w : Resolution). w.errors) same ∙ h))

  -- Where the keys of the catalogue are its identifiers and resolve_install_order reports no
  -- error, the order it returns has every application after all its dependencies, none twice and
  -- each of them enabled and as the catalogue has it; every selected application is in it; and
  -- nothing else than the selected applications and their transitive dependencies is: whatever
  -- holds of the selected ones and passes to dependencies holds of all of them.
  pub resolve_install_order_lem :
      (selected : List ℕ)
      → IsKeyed catalog
      → (r : Resolution) → resolve_install_order id_text selected catalog ≡ some r
      → r.errors ≡ []
      → Installs selected r.ordered
  unfolding resolve_install_order
  resolve_install_order_lem selected k r e h =
      let (t, s) = search_ends id_text catalog selected in
      from_found selected t s k _ refl r (sym (ap searched s) ∙ e) h
