-- ===== src/Applications/Paths.antt =====
-- backend/app/services/applications/paths.py: Windows paths, as code points. Letters beyond ASCII
-- are folded to themselves.
use infra_ops.Prelude.{
  ℕ, String, ◌≡◌, refl, Bool, true, false, ◌&&◌, ◌||◌, not, List, [], ◌∷◌, ◌++◌, map, codes, concat,
  any, all, is_space, lower_code, ltb, ◌==◌, if◌then◌else◌,
}
use infra_ops.Repository.Table.{codes_eq}
use infra_ops.Network.Conflict.{starts_with}
use infra_ops.Requests.Validate.{Checked, accepted, refused, ◌>>◌, refuse_if}
use infra_ops.Requests.Letters.{is_small, is_capital}
use infra_ops.Requests.Patterns.{is_alnum, bounded_name}

abbrev pub backslash : ℕ
backslash = 92

abbrev drop_left : (ℕ → Bool) → List ℕ → List ℕ
drop_left test [] = []
drop_left test (c ∷ cs) = let rest = drop_left test cs in if test c then rest else c ∷ cs

abbrev is_nil : List ℕ → Bool
is_nil [] = true
is_nil (c ∷ cs) = false

abbrev pub drop_right : (ℕ → Bool) → List ℕ → List ℕ
drop_right test [] = []
drop_right test (c ∷ cs) =
    let rest = drop_right test cs in if test c && is_nil rest then [] else c ∷ rest

-- `s.strip()`
abbrev pub strip_codes : List ℕ → List ℕ
strip_codes cs = drop_right is_space (drop_left is_space cs)

abbrev pub onto_first : ℕ → List (List ℕ) → List (List ℕ)
onto_first c [] = (c ∷ []) ∷ []
onto_first c (w ∷ ws) = (c ∷ w) ∷ ws

-- `path.split("\\")`
abbrev pub split_path : List ℕ → List (List ℕ)
split_path [] = [] ∷ []
split_path (c ∷ cs) =
    let rest = split_path cs in if c == backslash then [] ∷ rest else onto_first c rest

abbrev pub nonempty_parts : List (List ℕ) → List (List ℕ)
nonempty_parts [] = []
nonempty_parts (w ∷ ws) = let rest = nonempty_parts ws in if is_nil w then rest else w ∷ rest

-- _segments
unfoldable pub segments : List ℕ → List (List ℕ)
segments path = nonempty_parts (split_path path)

-- A character that _SEGMENT admits.
abbrev segment_char : ℕ → Bool
segment_char c =
    not (ltb c 32 || any (λ d. d == c) (codes "/:*?<>|") || (c == backslash) || (c == 34))

abbrev segment : List ℕ → Bool
segment w = not (is_nil w) && all segment_char w

abbrev host_char : ℕ → Bool
host_char c = is_alnum c || (c == b'.') || (c == b'-')

abbrev segments_after : (List ℕ → Bool) → List (List ℕ) → Bool
segments_after head [] = false
segments_after head (h ∷ []) = false
segments_after head (h ∷ w ∷ ws) = head h && segment w && all segment ws

abbrev unc_rest : List ℕ → Bool
unc_rest path = segments_after (bounded_name host_char 253) (split_path path)

-- UNC_PATH_PATTERN
unfoldable pub is_unc_path : List ℕ → Bool
is_unc_path (c ∷ d ∷ rest) = (c == backslash) && (d == backslash) && unc_rest rest
is_unc_path _ = false

abbrev drive : List ℕ → Bool
drive (c ∷ d ∷ []) = (is_capital c || is_small c) && (d == b':')
drive _ = false

-- DRIVE_PATH_PATTERN
unfoldable pub is_drive_path : List ℕ → Bool
is_drive_path path = segments_after drive (split_path path)

abbrev pub is_dots : List ℕ → Bool
is_dots w = codes_eq (strip_codes w) (codes ".") || codes_eq (strip_codes w) (codes "..")

abbrev ends_badly : List ℕ → Bool
ends_badly w = not (codes_eq w (drop_right (λ c. (c == 32) || (c == b'.')) w))

-- The checks of validate_windows_path; the messages begin with the label.
abbrev pub present : String → List ℕ → Checked (Unit {0})
present label path = refuse_if (is_nil path) (concat (label ∷ " is required." ∷ []))

abbrev pub slash_free : String → List ℕ → Checked (Unit {0})
slash_free label path =
    refuse_if (any (λ c. c == b'/') path)
      (concat (label ∷ " must use backslashes (\\) as separators." ∷ []))

abbrev pub absolute : String → List ℕ → Checked (Unit {0})
absolute label path = refuse_if (not (is_unc_path path || is_drive_path path)) (
    concat (
      label
      ∷ " must be an absolute UNC path (\\\\server\\share\\...) or drive path (C:\\...) without quotes, wildcards or control characters."
      ∷ []))

abbrev pub plain : String → List ℕ → Checked (Unit {0})
plain label path =
    refuse_if (any is_dots (segments path))
      (concat (label ∷ " must not contain '.' or '..' segments." ∷ []))

abbrev pub well_ended : String → List ℕ → Checked (Unit {0})
well_ended label path =
    refuse_if (any ends_badly (segments path))
      (concat (label ∷ " segments must not end with a space or a dot." ∷ []))

abbrev pub checked_path : String → List ℕ → Checked (List ℕ)
checked_path label path =
    present label path
    >> (slash_free label path
        >> (absolute label path >> (plain label path >> (well_ended label path >> accepted path))))

unfoldable pub validate_windows_path : List ℕ → String → Checked (List ℕ)
validate_windows_path value label = checked_path label (strip_codes value)

abbrev is_backslash : ℕ → Bool
is_backslash c = c == backslash

unfoldable pub validate_installer_root : List ℕ → Checked (List ℕ)
unfolding validate_windows_path
validate_installer_root value =
    validate_windows_path (drop_right is_backslash (strip_codes value)) "Approved installer root"

-- _normalise
unfoldable pub normalise : List ℕ → List ℕ
normalise path = map lower_code (drop_right is_backslash (strip_codes path))

abbrev pub within_root : List ℕ → Checked (List ℕ) → Bool
within_root path (refused e) = false
within_root path (accepted root) = starts_with (normalise root ++ backslash ∷ []) path

-- The loop over the roots.
unfoldable pub within_any : List ℕ → List (List ℕ) → Bool
unfolding validate_installer_root normalise
within_any path [] = false
within_any path (root ∷ roots) =
    within_root path (validate_installer_root root) || within_any path roots

abbrev pub within_checked : Checked (List ℕ) → List (List ℕ) → Bool
within_checked (refused e) roots = false
within_checked (accepted candidate) roots = within_any (normalise candidate) roots

unfoldable pub path_within_roots : List ℕ → List (List ℕ) → Bool
unfolding validate_windows_path within_any normalise
path_within_roots path roots = within_checked (validate_windows_path path "Path") roots

inside_root :
    path_within_roots (codes "\\\\SRV\\apps\\tool\\setup.msi") (codes "\\\\srv\\apps\\" ∷ []) ≡ true
unfolding path_within_roots validate_windows_path within_any validate_installer_root normalise
    segments is_unc_path is_drive_path
inside_root = refl

beside_root :
    path_within_roots (codes "\\\\srv\\apps-evil\\setup.msi") (codes "\\\\srv\\apps" ∷ []) ≡ false
unfolding path_within_roots validate_windows_path within_any validate_installer_root normalise
    segments is_unc_path is_drive_path
beside_root = refl
