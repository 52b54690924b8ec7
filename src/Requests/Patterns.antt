-- ===== src/Requests/Patterns.antt =====
-- The patterns of backend/app/schemas/provisioning.py and backend/app/schemas/secret_references.py,
-- as tests on code points.
use infra_ops.Prelude.{
  ℕ, suc, String, ◌≡◌, refl, ap, ◌∙◌, Bool, false, ◌&&◌, ◌||◌, List, [], ◌∷◌, map, codes, all,
  length, leb, ◌==◌, arith,
}
use infra_ops.Network.Address.{split_on}
use infra_ops.Requests.Letters.{is_small, is_capital, upper_code}

abbrev pub is_digit : ℕ → Bool
is_digit c = leb b'0' c && leb c b'9'

abbrev pub is_alnum : ℕ → Bool
is_alnum c = is_digit c || is_capital c || is_small c

abbrev pub last_of : ℕ → List ℕ → ℕ
last_of c [] = c
last_of c (d ∷ cs) = last_of d cs

-- [A-Za-z0-9](?:M{0,n}[A-Za-z0-9])? of at most `most` characters, with the middle ones by `middle`.
abbrev pub bounded_name : (ℕ → Bool) → ℕ → List ℕ → Bool
bounded_name middle most [] = false
bounded_name middle most (c ∷ cs) =
    is_alnum c && is_alnum (last_of c cs) && all middle (c ∷ cs) && leb (length (c ∷ cs)) most

abbrev vm_name_char : ℕ → Bool
vm_name_char c = is_alnum c || (c == b'-') || (c == b'.')

-- VM_NAME_PATTERN
unfoldable pub is_vm_name : List ℕ → Bool
is_vm_name text = bounded_name vm_name_char 63 text

abbrev pub computer_name_char : ℕ → Bool
computer_name_char c = is_alnum c || (c == b'-')

-- WINDOWS_COMPUTER_NAME_PATTERN
unfoldable pub is_computer_name : List ℕ → Bool
is_computer_name text = bounded_name computer_name_char 63 text

-- `s.isdigit()` of ASCII text.
abbrev pub all_digits : List ℕ → Bool
all_digits [] = false
all_digits (c ∷ cs) = all is_digit (c ∷ cs)

-- A label of DNS_DOMAIN_PATTERN before the last, which has letters only.
abbrev dns_label : String → Bool
dns_label label = let text = codes label in bounded_name computer_name_char (length text) text

abbrev is_letter : ℕ → Bool
is_letter c = is_capital c || is_small c

abbrev top_label : String → Bool
top_label label = all is_letter (codes label) && leb 2 (length (codes label))

abbrev dns_labels : List String → Bool
dns_labels [] = false
dns_labels (label ∷ []) = false
dns_labels (label ∷ top ∷ []) = dns_label label && top_label top
dns_labels (label ∷ next ∷ more ∷ labels) = dns_label label && dns_labels (next ∷ more ∷ labels)

-- DNS_DOMAIN_PATTERN
unfoldable pub is_dns_domain : String → Bool
unfolding split_on
is_dns_domain domain = dns_labels (split_on b'.' domain)

abbrev secret_start : ℕ → Bool
secret_start c = is_small c || is_digit c

abbrev secret_char : ℕ → Bool
secret_char c = secret_start c || (c == b'_') || (c == b'.') || (c == b'-')

abbrev secret_segment : List ℕ → Bool
secret_segment [] = false
secret_segment (c ∷ cs) = secret_start c && all secret_char cs

-- SECRET_REFERENCE_PATTERN
unfoldable pub is_secret_reference : String → Bool
unfolding split_on
is_secret_reference reference = all (λ s. secret_segment (codes s)) (split_on b'/' reference)

last_of-map : (f : ℕ → ℕ) (c : ℕ) (cs : List ℕ) → last_of (f c) (map f cs) ≡ f (last_of c cs)
last_of-map f c [] = refl
last_of-map f c (d ∷ cs) = last_of-map f d cs

pub length-upper : (cs : List ℕ) → length (map upper_code cs) ≡ length cs
length-upper [] = refl
length-upper (c ∷ cs) = ap suc (length-upper cs)

all-upper :
    (p : ℕ → Bool) (cs : List ℕ)
    → ((c : ℕ) → p (upper_code c) ≡ p c)
    → all p (map upper_code cs) ≡ all p cs
all-upper p [] h = refl
all-upper p (c ∷ cs) h = rw (h c, all-upper p cs h) refl

is_alnum-upper : (c : ℕ) → is_alnum (upper_code c) ≡ is_alnum c
is_alnum-upper c = ground arith

is_digit-upper : (c : ℕ) → is_digit (upper_code c) ≡ is_digit c
is_digit-upper c = ground arith

computer_name_char-upper : (c : ℕ) → computer_name_char (upper_code c) ≡ computer_name_char c
computer_name_char-upper c = ground arith

same_tests :
    (a b c d e f g h : Bool)
    → a ≡ e
    → b ≡ f
    → c ≡ g
    → d ≡ h
    → (a && b && c && d) ≡ (e && f && g && h)
same_tests a b c d e f g h p q r s = rw (p, q, r, s) refl

-- Capital letters make no difference to what is a computer name.
pub is_computer_name-upper :
    (cs : List ℕ) → is_computer_name (map upper_code cs) ≡ is_computer_name cs
unfolding is_computer_name
is_computer_name-upper [] = refl
is_computer_name-upper (c ∷ cs) =
    let first = is_alnum-upper c in
    let last = ap is_alnum (last_of-map upper_code c cs) ∙ is_alnum-upper (last_of c cs) in
    let middle = all-upper computer_name_char (c ∷ cs) computer_name_char-upper in
    let size = ap (λ n. leb n 63) (length-upper (c ∷ cs)) in
    same_tests _ _ _ _ _ _ _ _ first last middle size

pub all_digits-upper : (cs : List ℕ) → all_digits (map upper_code cs) ≡ all_digits cs
all_digits-upper [] = refl
all_digits-upper (c ∷ cs) = all-upper is_digit (c ∷ cs) is_digit-upper
