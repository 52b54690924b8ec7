-- ===== src/Applications/Roots.antt =====
-- What path_within_roots of backend/app/services/applications/paths.py says of the parts of a path.
use infra_ops.Prelude.{
  ℕ, String, ◌≡◌, refl, ap, ◌∙◌, subst, true, false, List, [], ◌∷◌, ◌++◌, arith, any, ◌==◌,
  Bool-cases, inl, inr, ◌⊎◌, if_of_true, if_of_false,
}
use mathlib.Core.List.{append_assoc}
use infra_ops.Network.Conflict.{starts_with}
use infra_ops.Requests.Validate.{Checked, accepted, refused, ◌>>◌}
use infra_ops.Requests.Limits.{then_accepted, value_same, accepted_test}
use infra_ops.Applications.Paths.{
  backslash, split_path, onto_first, segments, is_dots, present, slash_free, absolute, plain,
  well_ended, checked_path, validate_windows_path, validate_installer_root, normalise, strip_codes,
  within_root, within_any, within_checked, path_within_roots,
}

starts_with_rest : (p t : List ℕ) → starts_with p t ≡ true → (rest : List ℕ) × (t ≡ p ++ rest)
starts_with_rest [] t h = (t, refl)
starts_with_rest (c ∷ p) [] h = ground arith
starts_with_rest (c ∷ p) (d ∷ t) h =
    let (rest, e) = starts_with_rest p t (ground arith) in
    let same : d ≡ c = ground arith in (rest, rw (same, e) refl)

split_path-cons : (cs : List ℕ) → (w : List ℕ) × (ws : List (List ℕ)) × (split_path cs ≡ w ∷ ws)
split_path-cons [] = ([], [], refl)
split_path-cons (c ∷ cs) =
    let (w, ws, e) = split_path-cons cs in
    elim (Bool-cases (c == backslash)) [
      | inl q ↦ ([], split_path cs, if_of_true _ _ _ q)
      | inr q ↦ (c ∷ w, ws, if_of_false _ _ _ q ∙ ap (onto_first c) e)
    ]

onto_first-append :
    (c : ℕ) (w : List ℕ) (ws vs xs : List (List ℕ))
    → xs ≡ w ∷ ws
    → onto_first c (xs ++ vs) ≡ onto_first c xs ++ vs
onto_first-append c w ws vs [] e = ground arith
onto_first-append c w ws vs (x ∷ xs) e = refl

-- The parts of a path that goes on after a separator.
split_path-append : (a b : List ℕ) → split_path (a ++ backslash ∷ b) ≡ split_path a ++ split_path b
split_path-append [] b = refl
split_path-append (c ∷ a) b =
    let ih = split_path-append a b in
    let (w, ws, e) = split_path-cons a in
    elim (Bool-cases (c == backslash)) [
      | inl q ↦ rw (q, ih) refl
      | inr q ↦ rw (q, ih) (onto_first-append c w ws (split_path b) (split_path a) e)
    ]

abbrev pub Among : List ℕ → List (List ℕ) → Type 0
Among w [] = ⊥
Among w (v ∷ vs) = (w ≡ v) ⊎ Among w vs

-- A root of the list that the path goes on from.
abbrev pub LiesIn : List ℕ → List (List ℕ) → Type 0
LiesIn path roots =
    (root : List ℕ) × (clean : List ℕ) × (w : List ℕ) × (rest : List (List ℕ)) × Among root roots
    × (validate_installer_root root ≡ accepted clean)
    × (split_path path ≡ split_path (normalise clean) ++ w ∷ rest)

in_root :
    (path root : List ℕ) (c : Checked (List ℕ))
    → validate_installer_root root ≡ c
    → within_root path c ≡ true
    → (clean : List ℕ) × (w : List ℕ) × (rest : List (List ℕ)) × (validate_installer_root root
        ≡ accepted clean)
      × (split_path path ≡ split_path (normalise clean) ++ w ∷ rest)
in_root path root (refused m) e h = ground arith
in_root path root (accepted clean) e h =
    let (tail, f) = starts_with_rest (normalise clean ++ backslash ∷ []) path h in
    let (w, rest, g) = split_path-cons tail in
    (
      clean,
      w,
      rest,
      e,
      ap split_path (f ∙ append_assoc (normalise clean) (backslash ∷ []) tail)
          ∙ (split_path-append (normalise clean) tail
              ∙ ap (λ ws. split_path (normalise clean) ++ ws) g),
    )

in_roots :
    (path : List ℕ) (roots : List (List ℕ)) → within_any path roots ≡ true → LiesIn path roots
unfolding within_any
in_roots path [] h = ground arith
in_roots path (root ∷ roots) h =
    elim (Bool-cases (within_root path (validate_installer_root root))) [
      | inl q ↦
          let (clean, w, rest, e, f) = in_root path root _ refl q in
          (root, clean, w, rest, inl refl, e, f)
      | inr q ↦
          let (other, clean, w, rest, a, e, f) = in_roots path roots (ground (arith, q, h)) in
          (other, clean, w, rest, inr a, e, f)
    ]

path_checked :
    (label : String) (path candidate : List ℕ)
    → checked_path label path ≡ accepted candidate
    → (path ≡ candidate) × (any is_dots (segments path) ≡ false)
path_checked label path candidate h =
    let ended = accepted path in
    let plain_end = well_ended label path >> ended in
    let from_plain = plain label path >> plain_end in
    let from_absolute = absolute label path >> from_plain in
    let a =
      then_accepted (present label path) (slash_free label path >> from_absolute) candidate h in
    let b = then_accepted (slash_free label path) from_absolute candidate a.1 in
    let c = then_accepted (absolute label path) from_plain candidate b.1 in
    let d = then_accepted (plain label path) plain_end candidate c.1 in
    let e = then_accepted (well_ended label path) ended candidate d.1 in
    (value_same path candidate e.1, accepted_test (any is_dots (segments path)) _ d.0)

by_check :
    (path : List ℕ) (roots : List (List ℕ)) (c : Checked (List ℕ))
    → checked_path "Path" path ≡ c
    → within_checked c roots ≡ true
    → (candidate : List ℕ) × (checked_path "Path" path ≡ accepted candidate)
      × (any is_dots (segments candidate) ≡ false)
      × LiesIn (normalise candidate) roots
by_check path roots (refused m) e h = ground arith
by_check path roots (accepted candidate) e h =
    let (same, plain) = path_checked "Path" path candidate e in
    (
      candidate,
      e,
      subst (λ p. any is_dots (segments p) ≡ false) same plain,
      in_roots (normalise candidate) roots h,
    )

-- A path that path_within_roots lets through passes validate_windows_path, has no "." or ".."
-- segment, and one of the roots passes validate_installer_root such that the path's segments are
-- those of the root, letter case aside, followed by at least one more: a root never admits a
-- path whose segment merely begins like its last one.
pub path_within_roots_lem :
    (path : List ℕ) (roots : List (List ℕ))
    → path_within_roots path roots ≡ true
    → (candidate : List ℕ) × (validate_windows_path path "Path" ≡ accepted candidate)
      × (any is_dots (segments candidate) ≡ false)
      × LiesIn (normalise candidate) roots
unfolding path_within_roots validate_windows_path
path_within_roots_lem path roots h =
    by_check (strip_codes path) roots (checked_path "Path" (strip_codes path)) refl h
