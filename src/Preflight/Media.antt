-- ===== src/Preflight/Media.antt =====
-- backend/app/services/windows_media.py: the kind of an installation medium, by its volume label.
use infra_ops.Prelude.{
  ℕ, zero, suc, ◌≡◌, refl, Bool, true, ◌&&◌, ◌||◌, not, List, [], ◌∷◌, map, Option, none, some,
  codes, all, any, length, take, ltb, ◌==◌, if◌then◌else◌,
}
use infra_ops.Repository.Table.{codes_eq}
use infra_ops.Network.Conflict.{starts_with, contains}
use infra_ops.Requests.Letters.{upper_code, is_capital}
use infra_ops.Requests.Patterns.{is_digit}
use infra_ops.Applications.Paths.{strip_codes}

pub data WindowsMediaKind : Type 0 where
  server client unknown : WindowsMediaKind

abbrev drop : ℕ → List ℕ → List ℕ
drop zero xs = xs
drop (suc n) [] = []
drop (suc n) (x ∷ xs) = drop n xs

-- A byte of the label, decoded as ASCII with U+FFFD for the others.
abbrev decoded : ℕ → ℕ
decoded byte = if ltb byte 128 then byte else 0xfffd

abbrev label_of : List ℕ → Option (List ℕ)
label_of [] = none
label_of (c ∷ cs) = some (c ∷ cs)

abbrev descriptor_label : List ℕ → Option (List ℕ)
descriptor_label descriptor =
    if ltb (length descriptor) 72 || not (codes_eq (take 6 descriptor) (1 ∷ codes "CD001"))
    then none
    else label_of (strip_codes (map decoded (take 32 (drop 40 descriptor))))

-- iso_volume_label, of the bytes of the header.
unfoldable pub iso_volume_label : List ℕ → Option (List ℕ)
iso_volume_label header = descriptor_label (take 2048 (drop 32768 header))

abbrev label_or_empty : Option (List ℕ) → List ℕ
label_or_empty none = []
label_or_empty (some label) = label

abbrev is_server_label : List ℕ → Bool
is_server_label label = starts_with (codes "SSS_") label || contains (codes "_SSS_") label

abbrev client_prefix : List ℕ → Bool
client_prefix label =
    any (λ p. starts_with (codes p) label)
      ("CCCOMA_" ∷ "CCOMA_" ∷ "CPBA_" ∷ "CPRA_" ∷ "CENA_" ∷ "CCSA_" ∷ [])

abbrev is_client_label : List ℕ → Bool
is_client_label label =
    client_prefix label
    || (starts_with (codes "J_") label && client_prefix (drop 2 label))
    || codes_eq label (codes "ESD-ISO")
    || codes_eq label (codes "ESD_ISO")

abbrev kind_of : List ℕ → WindowsMediaKind
kind_of normalized =
    if is_server_label normalized
    then server
    else if is_client_label normalized
    then client
    else unknown

unfoldable pub classify_windows_media : Option (List ℕ) → WindowsMediaKind
classify_windows_media label = kind_of (map upper_code (strip_codes (label_or_empty label)))

abbrev key_char : ℕ → Bool
key_char c = is_capital c || is_digit c

abbrev key_groups : ℕ → List ℕ → Bool
key_groups zero key = (length key == 5) && all key_char key
key_groups (suc n) key =
    let rest = key_groups n (drop 6 key) in
    (length (take 5 key) == 5)
    && all key_char (take 5 key)
    && codes_eq (take 1 (drop 5 key)) (codes "-")
    && rest

-- PRODUCT_KEY
unfoldable pub is_product_key : List ℕ → Bool
is_product_key key = key_groups 4 key

server_medium : classify_windows_media (some (codes "sss_x64free_en-us_dv9")) ≡ server
unfolding classify_windows_media
server_medium = refl

client_medium : classify_windows_media (some (codes "CCCOMA_X64FRE")) ≡ client
unfolding classify_windows_media
client_medium = refl

product_key : is_product_key (codes "AAAAA-BBBBB-CCCCC-DDDDD-12345") ≡ true
unfolding is_product_key
product_key = refl
