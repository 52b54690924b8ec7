-- ===== src/Limiter/Refined.antt =====
-- The limiter of backend/app/core/rate_limit.py against a limiter that forgets nothing.
use infra_ops.Prelude.{
  ℕ, ◌+◌, ◌≤◌, ◌≡◌, refl, sym, ap, ◌∙◌, Bool, true, false, String, List, [], ◌∷◌, ◌++◌, arith, ltb,
  leb, length, count_if, All, str_eq, if◌then◌else◌, Bool-cases, inl, inr, eq_iff,
}
use infra_ops.Limiter.{
  Hits, drop_old, set_hits, allow, reset, in_window, IsChronological, length-drop_old,
}

-- The abstract limiter keeps every permitted call, and counts those in the window.
abbrev pub permit : ℕ → String → ℕ → ℕ → Hits → Bool × Hits
permit now key limit window log =
    let allowed = ltb (count_if (in_window now window) (log key)) limit in
    (allowed, if allowed then set_hits key (log key ++ now ∷ []) log else log)

pub data Event : Type 0 where
  call : ℕ → String → Event
  clear : String → Event

abbrev pub no_hits : Hits
no_hits key = []

-- The times of the calls do not go back.
abbrev pub IsTimed : ℕ → List Event → Type 0
IsTimed now [] = Unit
IsTimed now (call t key ∷ events) = (now ≤ t) × IsTimed t events
IsTimed now (clear key ∷ events) = IsTimed now events

-- Each key has its limit and its window.
module _ (limit window : String → ℕ) where
  -- The answers of the limiter to the calls.
  unfoldable pub answers : List Event → Hits → List Bool
  unfolding allow reset
  answers [] hits = []
  answers (call t key ∷ events) hits =
      let r = allow t key (limit key) (window key) hits in r.0 ∷ answers events r.1
  answers (clear key ∷ events) hits = answers events (reset key hits)

  unfoldable pub permits : List Event → Hits → List Bool
  permits [] log = []
  permits (call t key ∷ events) log =
      let r = permit t key (limit key) (window key) log in r.0 ∷ permits events r.1
  permits (clear key ∷ events) log = permits events (set_hits key [] log)

drop_old-drop_old :
    (t now w : ℕ) (hs : List ℕ) → t ≤ now → drop_old now w (drop_old t w hs) ≡ drop_old now w hs
unfolding drop_old
drop_old-drop_old t now w [] l = refl
drop_old-drop_old t now w (h ∷ hs) l =
    let ih = drop_old-drop_old t now w hs l in
    elim (Bool-cases (ltb (h + w) t)) [
      | inl q ↦ let p : ltb (h + w) now ≡ true = ground (arith, q, l) in rw (q, p) ih
      | inr q ↦ rw q refl
    ]

drop_old-append :
    (now w : ℕ) (hs : List ℕ) → drop_old now w (hs ++ now ∷ []) ≡ drop_old now w hs ++ now ∷ []
unfolding drop_old
drop_old-append now w [] = let p : ltb (now + w) now ≡ false = ground arith in rw p refl
drop_old-append now w (h ∷ hs) = elim (Bool-cases (ltb (h + w) now)) [
  | inl q ↦ rw q (drop_old-append now w hs)
  | inr q ↦ rw q refl
]

All-after :
    (h t : ℕ) (hs : List ℕ)
    → h ≤ t
    → All (λ (g : ℕ). h ≤ g) hs
    → All (λ (g : ℕ). h ≤ g) (hs ++ t ∷ [])
All-after h t [] l b = (l, tt)
All-after h t (g ∷ gs) l (p, b) = (p, All-after h t gs l b)

IsChronological-append :
    (now t : ℕ) (hs : List ℕ) → now ≤ t → IsChronological now hs → IsChronological t (hs ++ t ∷ [])
IsChronological-append now t [] l c = (omega arith, tt, tt)
IsChronological-append now t (h ∷ hs) l (a, b, c) =
    let k : h ≤ t = omega (arith, a, l) in
    (k, All-after h t hs k b, IsChronological-append now t hs l c)

later-IsChronological :
    (now t : ℕ) (hs : List ℕ) → now ≤ t → IsChronological now hs → IsChronological t hs
later-IsChronological now t [] l c = tt
later-IsChronological now t (h ∷ hs) l (a, b, c) =
    (omega (arith, a, l), b, later-IsChronological now t hs l c)

module _ (limit window : String → ℕ) where
  -- The hits of a key are those logged, less the ones that had left the window at an earlier time.
  abbrev Holds : ℕ → Hits → Hits → Type 0
  Holds now hits log =
      (key : String)
      → (t : ℕ) × (t ≤ now)
        × (hits key ≡ drop_old t (window key) (log key))
        × IsChronological now (log key)

  set-Holds :
      (now t : ℕ) (key : String) (hits log : Hits) (hs ls : List ℕ)
      → now ≤ t
      → Holds now hits log
      → hs ≡ drop_old t (window key) ls
      → IsChronological t ls
      → Holds t (set_hits key hs hits) (set_hits key ls log)
  set-Holds now t key hits log hs ls l holds e c other = elim (Bool-cases (str_eq other key)) [
    | inl q ↦ let k : other ≡ key = (eq_iff other key).0 q in (t, omega arith, rw (q, k) e, rw q c)
    | inr q ↦
        let (t0, l0, e0, c0) = holds other in
        (t0, omega (arith, l0, l), rw q e0, rw q (later-IsChronological now t (log other) l c0))
  ]

  drop-Holds :
      (now t : ℕ) (key : String) (hits log : Hits) (hs : List ℕ)
      → now ≤ t
      → Holds now hits log
      → hs ≡ drop_old t (window key) (log key)
      → Holds t (set_hits key hs hits) log
  drop-Holds now t key hits log hs l holds e other =
      let (t0, l0, e0, c0) = holds other in
      let later = later-IsChronological now t (log other) l c0 in
      elim (Bool-cases (str_eq other key)) [
        | inl q ↦
            let k : other ≡ key = (eq_iff other key).0 q in (t, omega arith, rw (q, k) e, later)
        | inr q ↦ (t0, omega (arith, l0, l), rw q e0, later)
      ]

  step_refines :
      (now t : ℕ) (key : String) (hits log : Hits)
      → now ≤ t
      → Holds now hits log
      → let r = allow t key (limit key) (window key) hits in
        let p = permit t key (limit key) (window key) log in (r.0 ≡ p.0) × Holds t r.1 p.1
  unfolding allow
  step_refines now t key hits log l holds =
      let (t0, l0, e, c) = holds key in
      let w = window key in
      let same : drop_old t w (hits key) ≡ drop_old t w (log key) =
        rw e (drop_old-drop_old t0 t w (log key) (omega (arith, l0, l))) in
      let later = later-IsChronological now t (log key) l c in
      let used = ap length same ∙ length-drop_old t w (log key) later in
      elim (Bool-cases (leb (limit key) (length (drop_old t w (hits key))))) [
        | inl full ↦
            let over : ltb (count_if (in_window t w) (log key)) (limit key) ≡ false =
              ground (arith, full, used) in
            rw (full, over)
              (refl, drop-Holds now t key hits log (drop_old t w (hits key)) l holds same)
        | inr free ↦
            let under : ltb (count_if (in_window t w) (log key)) (limit key) ≡ true =
              ground (arith, free, used) in
            rw (free, under)
              (
                refl,
                set-Holds now t key hits log (drop_old t w (hits key) ++ t ∷ []) (log key ++ t ∷ [])
                    l holds (ap (λ hs. hs ++ t ∷ []) same ∙ sym (drop_old-append t w (log key)))
                    (IsChronological-append now t (log key) l c),
              )
      ]

  clear-Holds :
      (now : ℕ) (key : String) (hits log : Hits)
      → Holds now hits log
      → Holds now (set_hits key [] hits) (set_hits key [] log)
  unfolding drop_old
  clear-Holds now key hits log holds =
      set-Holds now now key hits log [] [] (omega arith) holds refl tt

  answers_refine :
      (events : List Event) (now : ℕ) (hits log : Hits)
      → Holds now hits log
      → IsTimed now events
      → answers limit window events hits ≡ permits limit window events log
  unfolding answers permits reset
  answers_refine [] now hits log holds timed = refl
  answers_refine (call t key ∷ events) now hits log holds (l, timed) =
      let (same, next) = step_refines now t key hits log l holds in
      let r = allow t key (limit key) (window key) hits in
      let p = permit t key (limit key) (window key) log in
      ap (λ b. b ∷ answers limit window events r.1) same
      ∙ ap (λ bs. p.0 ∷ bs) (answers_refine events t r.1 p.1 next timed)
  answers_refine (clear key ∷ events) now hits log holds timed =
      answers_refine events now (set_hits key [] hits) (set_hits key [] log)
        (clear-Holds now key hits log holds) timed

  start-Holds : Holds 0 no_hits no_hits
  unfolding drop_old
  start-Holds key = (0, omega arith, refl, tt)

  -- Over any sequence of calls whose times do not go back, with resets of keys between them and a
  -- fixed limit and window for each key, the limiter, which drops old hits, gives the answers of
  -- the limiter that keeps every permitted call and counts those in the window.
  pub answers-permits :
      (events : List Event)
      → IsTimed 0 events
      → answers limit window events no_hits ≡ permits limit window events no_hits
  answers-permits events timed = answers_refine events 0 no_hits no_hits start-Holds timed
