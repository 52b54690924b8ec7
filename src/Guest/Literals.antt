-- ===== src/Guest/Literals.antt =====
-- Reading a single-quoted literal back, for ps_quote of backend/app/services/guest/scripts.py.
use Prim.Native.Char.{Char, code}
use Prim.Native.String
use infra_ops.Prelude.{
  ℕ, String, ◌≡◌, refl, ap, ◌∙◌, Bool, true, false, ◌||◌, not, Option, none, some, codes, all,
  if◌then◌else◌, arith, Bool-cases, if_of_true, if_of_false, inl, inr, ◌==◌,
}
use text.Mathlib.TextLemmas.{nil-append, cons-append, append_assoc}
use infra_ops.Guest.{doubled, ps_quote}

-- What is read of a literal, and the text behind it.
abbrev pub Read : Type 0
Read = Option (String × String)

abbrev put : Char → Read → Read
put c none = none
put c (some (s, rest)) = some (String.◌∷◌ c s, rest)

-- The reader of single-quoted literals, over the characters that count as a single quote: two of
-- them stand for the second, and one ends the literal.
module _ (is_quote : ℕ → Bool) where
  abbrev read : Bool → String → Read
  read false String.[] = none
  read true String.[] = some ("", "")
  read false (String.◌∷◌ c s) =
      let inside = read false s in
      let after = read true s in if is_quote (code c) then after else put c inside
  read true (String.◌∷◌ c s) =
      let inside = read false s in
      if is_quote (code c) then put c inside else some ("", String.◌∷◌ c s)

  unfoldable pub read_literal : String → Read
  read_literal String.[] = none
  read_literal (String.◌∷◌ c s) = if is_quote (code c) then read false s else none

  -- A text that does not begin with a quote.
  abbrev pub unquoted : String → Bool
  unquoted String.[] = true
  unquoted (String.◌∷◌ c s) = not (is_quote (code c))

  -- No character but the apostrophe is a quote.
  abbrev pub plain : ℕ → Bool
  plain c = c == 0x27 || not (is_quote c)

  -- Behind the quote that ends a literal.
  read-unquoted : (rest : String) → unquoted rest ≡ true → read true rest ≡ some ("", rest)
  read-unquoted String.[] h = refl
  read-unquoted (String.◌∷◌ c s) h = elim (Bool-cases (is_quote (code c))) [
    | inl q ↦ ground (arith, h, q)
    | inr q ↦ if_of_false _ _ _ q
  ]

  apostrophe-is_quote : (c : ℕ) → is_quote 0x27 ≡ true → (c == 0x27) ≡ true → is_quote c ≡ true
  apostrophe-is_quote c h q = let e : c ≡ 0x27 = ground (arith, q) in ap is_quote e ∙ h

  -- A doubled apostrophe is read as one.
  read-apostrophe :
      (c : Char) (s : String)
      → is_quote (code c) ≡ true
      → read false (String.◌∷◌ c (String.◌∷◌ c s)) ≡ put c (read false s)
  read-apostrophe c s q = if_of_true _ _ _ q ∙ if_of_true _ _ _ q

  read-other :
      (c : Char) (s : String)
      → is_quote (code c) ≡ false
      → read false (String.◌∷◌ c s) ≡ put c (read false s)
  read-other c s q = if_of_false _ _ _ q

  read-doubled :
      (value rest : String)
      → is_quote 0x27 ≡ true
      → unquoted rest ≡ true
      → all plain (codes value) ≡ true
      → read false (String.◌++◌ (doubled value) (String.◌∷◌ "'" rest)) ≡ some (value, rest)
  read-doubled String.[] rest quote u p =
      rw (nil-append (String.◌∷◌ "'" rest)) (if_of_true _ _ _ quote ∙ read-unquoted rest u)
  read-doubled (String.◌∷◌ c s) rest quote u p =
      let tail : all plain (codes s) ≡ true = ground (arith, p) in
      let ih = ap (put c) (read-doubled s rest quote u tail) in
      elim (Bool-cases (code c == 0x27)) [
        | inl q ↦
            rw
              (
                q,
                cons-append c (String.◌∷◌ c (doubled s)) (String.◌∷◌ "'" rest),
                cons-append c (doubled s) (String.◌∷◌ "'" rest),
              )
              (read-apostrophe c _ (apostrophe-is_quote (code c) quote q) ∙ ih)
        | inr q ↦
            rw (q, cons-append c (doubled s) (String.◌∷◌ "'" rest))
              (read-other c _ (ground (arith, p, q)) ∙ ih)
      ]

  -- If the apostrophe is a quote and no other character of a value is one, a reader of single-quoted
  -- literals reads from the literal of the value exactly the value, and leaves the text behind the
  -- literal, where this does not begin with a quote.
  pub read_literal-ps_quote :
      (value rest : String)
      → is_quote 0x27 ≡ true
      → unquoted rest ≡ true
      → all plain (codes value) ≡ true
      → read_literal (String.◌++◌ (ps_quote value) rest) ≡ some (value, rest)
  unfolding read_literal ps_quote
  read_literal-ps_quote value rest quote u p =
      rw
        (
          cons-append "'" (String.◌++◌ (doubled value) "'") rest,
          append_assoc (doubled value) "'" rest,
          cons-append "'" "" rest,
          nil-append rest,
        )
        (if_of_true _ _ _ quote ∙ read-doubled value rest quote u p)
