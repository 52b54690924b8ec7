-- ===== src/Requests/Letters.antt =====
-- Python's `upper` and `lower` on ASCII text, and the trimming of one character; the names of
-- backend/app/schemas/provisioning.py are ASCII by their patterns.
use Prim.Native.Char.{Char, code}
use infra_ops.Prelude.{
  ℕ, zero, suc, ◌+◌, ◌-◌, ◌<◌, String, ◌≡◌, refl, ◌∙◌, Bool, true, false, ◌&&◌, map, codes, leb,
  ◌==◌, if◌then◌else◌, arith, str_eq, if_of_false, Bool-cases, inl, inr,
}

abbrev char_of : ℕ → String → Char → Char
char_of n String.[] d = d
char_of zero (String.◌∷◌ c s) d = c
char_of (suc n) (String.◌∷◌ c s) d = char_of n s d

abbrev capitals : String
capitals = "ABCDEFGHIJKLMNOPQRSTUVWXYZ"

abbrev small_letters : String
small_letters = "abcdefghijklmnopqrstuvwxyz"

abbrev pub is_small : ℕ → Bool
is_small c = leb b'a' c && leb c b'z'

abbrev pub is_capital : ℕ → Bool
is_capital c = leb b'A' c && leb c b'Z'

unfoldable pub upper_char : Char → Char
upper_char c = if is_small (code c) then char_of (code c - b'a') capitals c else c

unfoldable pub lower_char : Char → Char
lower_char c = if is_capital (code c) then char_of (code c - b'A') small_letters c else c

-- `s.upper()`
unfoldable pub upper : String → String
unfolding upper_char
upper String.[] = String.[]
upper (String.◌∷◌ c s) = String.◌∷◌ (upper_char c) (upper s)

-- `s.lower()`, as a text.
unfoldable pub lower_text : String → String
unfolding lower_char
lower_text String.[] = String.[]
lower_text (String.◌∷◌ c s) = String.◌∷◌ (lower_char c) (lower_text s)

-- `s.rstrip(".")`
unfoldable pub strip_dots : String → String
strip_dots String.[] = String.[]
strip_dots (String.◌∷◌ c s) =
    let rest = strip_dots s in
    if (code c == b'.') && str_eq rest "" then String.[] else String.◌∷◌ c rest

abbrev pub upper_code : ℕ → ℕ
upper_code c = if is_small c then c - 32 else c

abbrev all_below : ℕ → (ℕ → Bool) → Bool
all_below zero test = true
all_below (suc n) test = test n && all_below n test

all_below_lem :
    (n : ℕ) (test : ℕ → Bool) → all_below n test ≡ true → (k : ℕ) → k < n → test k ≡ true
all_below_lem zero test h k l = absurd (omega arith)
all_below_lem (suc n) test h k l =
    let here : test n ≡ true = ground arith in
    let below : all_below n test ≡ true = ground arith in
    elim (Bool-cases (k == n)) [
      | inl e ↦ let q : k ≡ n = ground arith in rw q here
      | inr e ↦ all_below_lem n test below k (ground arith)
    ]

capitals_in_order : (d : Char) → all_below 26 (λ k. code (char_of k capitals d) == k + b'A') ≡ true
capitals_in_order d = refl

code-capital : (k : ℕ) (d : Char) → k < 26 → code (char_of k capitals d) ≡ k + b'A'
code-capital k d l =
    let h =
      all_below_lem 26 (λ j. code (char_of j capitals d) == j + b'A') (capitals_in_order d) k l in
    ground (arith, h)

pub code-upper_char : (c : Char) → code (upper_char c) ≡ upper_code (code c)
unfolding upper_char
code-upper_char c = elim (Bool-cases (is_small (code c))) [
  | inl q ↦
      let inside : code c - b'a' < 26 = ground (arith, q) in
      rw q (ground (arith, code-capital (code c - b'a') c inside, q))
  | inr q ↦ rw q refl
]

upper_char-upper_char : (c : Char) → upper_char (upper_char c) ≡ upper_char c
upper_char-upper_char c =
    let e = code-upper_char c in
    let q : is_small (code (upper_char c)) ≡ false = ground (arith, e) in
    let step : upper_char (upper_char c) ≡ (
        if is_small (code (upper_char c))
        then char_of (code (upper_char c) - b'a') capitals (upper_char c)
        else upper_char c) =
      unfold upper_char in refl in
    step ∙ if_of_false _ _ _ q

pub upper-upper : (s : String) → upper (upper s) ≡ upper s
unfolding upper
upper-upper String.[] = refl
upper-upper (String.◌∷◌ c s) = rw (upper_char-upper_char c, upper-upper s) refl

pub codes-upper : (s : String) → codes (upper s) ≡ map upper_code (codes s)
unfolding upper
codes-upper String.[] = refl
codes-upper (String.◌∷◌ c s) = rw (code-upper_char c, codes-upper s) refl
