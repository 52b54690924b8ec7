-- ===== src/Applications/Counts.antt =====
-- How often an identifier stands in a list, for the dicts and lists of
-- backend/app/services/applications/resolver.py.
use infra_ops.Prelude.{
  ℕ, suc, ◌+◌, ◌≤◌, String, ◌≡◌, refl, List, [], ◌∷◌, ◌++◌, arith, count_if, length, ◌==◌,
  if◌then◌else◌,
}
use infra_ops.Applications.Catalog.{insert_by, sort_by, insert_id, sort_ids}

abbrev pub count : ℕ → List ℕ → ℕ
count x xs = count_if (λ y. y == x) xs

pub count-append : (x : ℕ) (xs ys : List ℕ) → count x (xs ++ ys) ≡ count x xs + count x ys
count-append x [] ys = omega arith
count-append x (y ∷ xs) ys = ground (arith, count-append x xs ys)

count-insert_by :
    (names : ℕ → String) (x id : ℕ) (ids : List ℕ)
    → count x (insert_by names id ids) ≡ count x (id ∷ ids)
count-insert_by names x id [] = refl
count-insert_by names x id (other ∷ ids) = ground (arith, count-insert_by names x id ids)

pub count-sort_by :
    (names : ℕ → String) (x : ℕ) (ids : List ℕ) → count x (sort_by names ids) ≡ count x ids
unfolding sort_by
count-sort_by names x [] = refl
count-sort_by names x (id ∷ ids) =
    ground (arith, count-insert_by names x id (sort_by names ids), count-sort_by names x ids)

count-insert_id : (x id : ℕ) (ids : List ℕ) → count x (insert_id id ids) ≡ count x (id ∷ ids)
count-insert_id x id [] = refl
count-insert_id x id (other ∷ ids) = ground (arith, count-insert_id x id ids)

pub count-sort_ids : (x : ℕ) (ids : List ℕ) → count x (sort_ids ids) ≡ count x ids
unfolding sort_ids
count-sort_ids x [] = refl
count-sort_ids x (id ∷ ids) =
    ground (arith, count-insert_id x id (sort_ids ids), count-sort_ids x ids)

abbrev drop_one : ℕ → List ℕ → List ℕ
drop_one x [] = []
drop_one x (y ∷ ys) = let rest = drop_one x ys in if y == x then ys else y ∷ rest

length-drop_one : (x : ℕ) (ys : List ℕ) → 1 ≤ count x ys → length ys ≡ suc (length (drop_one x ys))
length-drop_one x [] h = absurd (omega arith)
length-drop_one x (y ∷ ys) h = ground (arith, length-drop_one x ys)

count-drop_one : (x z : ℕ) (ys : List ℕ) → 1 ≤ count x ys → count z ys ≡ count z (x ∷ drop_one x ys)
count-drop_one x z [] h = absurd (omega arith)
count-drop_one x z (y ∷ ys) h = ground (arith, count-drop_one x z ys)

-- A list whose entries another has as often is no longer than that one.
pub within-length : (xs ys : List ℕ) → ((z : ℕ) → count z xs ≤ count z ys) → length xs ≤ length ys
within-length [] ys h = omega arith
within-length (x ∷ xs) ys h =
    let here : 1 ≤ count x ys = ground (arith, h x) in
    let rest =
      within-length xs (drop_one x ys) (λ z. ground (arith, h z, count-drop_one x z ys here)) in
    ground (arith, length-drop_one x ys here)

-- Of two such lists of one length, each has the entries of the other as often.
pub within-all :
    (xs ys : List ℕ)
    → ((z : ℕ) → count z xs ≤ count z ys)
    → length ys ≤ length xs
    → (z : ℕ) → count z ys ≤ count z xs
within-all [] [] h l z = omega arith
within-all [] (y ∷ ys) h l z = absurd (omega arith)
within-all (x ∷ xs) ys h l z =
    let here : 1 ≤ count x ys = ground (arith, h x) in
    let rest =
      within-all xs (drop_one x ys) (λ w. ground (arith, h w, count-drop_one x w ys here))
        (ground (arith, length-drop_one x ys here)) z in
    ground (arith, count-drop_one x z ys here)
