-- ===== src/Limiter.antt =====
-- SlidingWindowRateLimiter of backend/app/core/rate_limit.py, the in-process fallback. The clock and the
-- window are numbers; a call holds the lock, so calls come one after another.
pub mod Refined
use infra_ops.Prelude.{
  ℕ, suc, ◌+◌, ◌≤◌, ◌≡◌, ◌≢◌, refl, sym, ap, ◌∙◌, Bool, true, false, not, String, List, [], ◌∷◌,
  ◌++◌, arith, ltb, leb, length, count_if, All, str_eq, if◌then◌else◌, Bool-cases, if_of_true, inl,
  inr, eq_iff, eq_refl,
}

-- `_hits`, a defaultdict: the times of the hits of a key, the oldest first.
abbrev pub Hits : Type 0
Hits = String → List ℕ

-- `while hits and hits[0] < cutoff: hits.popleft()`, where cutoff is `now - window`.
unfoldable pub drop_old : ℕ → ℕ → List ℕ → List ℕ
drop_old now window [] = []
drop_old now window (h ∷ hs) =
    let rest = drop_old now window hs in if ltb (h + window) now then rest else h ∷ hs

abbrev pub set_hits : String → List ℕ → Hits → Hits
set_hits key hs hits k = if str_eq k key then hs else hits k

-- `allow`
unfoldable pub allow : ℕ → String → ℕ → ℕ → Hits → Bool × Hits
allow now key limit window hits =
    let recent = drop_old now window (hits key) in
    if leb limit (length recent)
    then (false, set_hits key recent hits)
    else (true, set_hits key (recent ++ now ∷ []) hits)

-- `reset`
unfoldable pub reset : String → Hits → Hits
reset key hits = set_hits key [] hits

-- A hit that is still in the window.
abbrev pub in_window : ℕ → ℕ → ℕ → Bool
in_window now window h = not (ltb (h + window) now)

-- The hits came in the order of the clock, and none is later than now.
abbrev pub IsChronological : ℕ → List ℕ → Type 0
IsChronological now [] = Unit
IsChronological now (h ∷ hs) = (h ≤ now) × All (λ (g : ℕ). h ≤ g) hs × IsChronological now hs

All-in_window :
    (now window : ℕ) (h : ℕ) (hs : List ℕ)
    → All (λ (g : ℕ). h ≤ g) hs
    → ltb (h + window) now ≡ false
    → count_if (in_window now window) hs ≡ length hs
All-in_window now window h [] later fresh = refl
All-in_window now window h (g ∷ gs) later fresh =
    ground (arith, later.0, fresh, All-in_window now window h gs later.1 fresh)

-- What is dropped is out of the window, and what is left is in it.
pub length-drop_old :
    (now window : ℕ) (hs : List ℕ)
    → IsChronological now hs
    → length (drop_old now window hs) ≡ count_if (in_window now window) hs
unfolding drop_old
length-drop_old now window [] ordered = refl
length-drop_old now window (h ∷ hs) ordered = elim (Bool-cases (ltb (h + window) now)) [
  | inl old ↦ rw old (length-drop_old now window hs ordered.2)
  | inr fresh ↦ rw fresh (ap suc (sym (All-in_window now window h hs ordered.1 fresh)))
]

count-drop_old :
    (now window : ℕ) (hs : List ℕ)
    → count_if (in_window now window) (drop_old now window hs) ≡ count_if (in_window now window) hs
unfolding drop_old
count-drop_old now window [] = refl
count-drop_old now window (h ∷ hs) = ground (arith, count-drop_old now window hs)

pub count-append :
    (p : ℕ → Bool) (hs : List ℕ) (h : ℕ)
    → count_if p (hs ++ h ∷ []) ≡ count_if p hs + (if p h then 1 else 0)
count-append p [] h = ground arith
count-append p (g ∷ gs) h = ground (arith, count-append p gs h)

pub set_hits_self : (key : String) (hs : List ℕ) (hits : Hits) → set_hits key hs hits key ≡ hs
set_hits_self key hs hits = if_of_true _ _ _ (eq_refl key)

pub set_hits-other :
    (key other : String) (hs : List ℕ) (hits : Hits)
    → other ≢ key
    → set_hits key hs hits other ≡ hits other
set_hits-other key other hs hits ne = ground (arith, ne, eq_iff other key)

-- When the hits of a key came in the order of the clock, a call is permitted exactly when fewer than
-- the limit of them are in the window; a permitted call is counted in the window from then on, a refused
-- one is not; and the hits of another key do not change.
pub allow_lem :
    (now : ℕ) (key : String) (limit window : ℕ) (hits : Hits) (other : String)
    → IsChronological now (hits key)
    → other ≢ key
    → let (allowed, after) = allow now key limit window hits in
      let used = count_if (in_window now window) (hits key) in
      (allowed ≡ ltb used limit)
      × (count_if (in_window now window) (after key) ≡ used + (if allowed then 1 else 0))
      × (after other ≡ hits other)
unfolding allow
allow_lem now key limit window hits other ordered ne =
    let recent = drop_old now window (hits key) in
    let used = length-drop_old now window (hits key) ordered in
    let kept = count-drop_old now window (hits key) in
    elim (Bool-cases (leb limit (length recent))) [
      | inl full ↦ rw full (
        ground (arith, full, used),
        ap (count_if (in_window now window)) (set_hits_self key recent hits) ∙ kept ∙ ground arith,
        set_hits-other key other recent hits ne,
      )
      | inr free ↦ rw free (
        ground (arith, free, used),
        ap (count_if (in_window now window)) (set_hits_self key (recent ++ now ∷ []) hits)
            ∙ ground (arith, count-append (in_window now window) recent now, kept),
        set_hits-other key other (recent ++ now ∷ []) hits ne,
      )
    ]
