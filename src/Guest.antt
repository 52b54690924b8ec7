-- ===== src/Guest.antt =====
-- backend/app/services/guest/scripts.py: the literals and paths of the scripts that run in a guest.
pub mod Literals
use Prim.Native.Char.{Char, code}
use Prim.Native.String
use infra_ops.Prelude.{String, Bool, List, [], ◌∷◌, concat, if◌then◌else◌, ◌==◌}

-- value.replace("'", "''")
abbrev pub doubled : String → String
doubled String.[] = String.[]
doubled (String.◌∷◌ c s) =
    let rest = doubled s in
    if code c == 0x27 then String.◌∷◌ c (String.◌∷◌ c rest) else String.◌∷◌ c rest

unfoldable pub ps_quote : String → String
ps_quote value = String.◌∷◌ "'" (String.◌++◌ (doubled value) "'")

abbrev guest_temp_dir : String
guest_temp_dir = "C:\\Windows\\Temp"

unfoldable pub new_temp_path : String → String → String
new_temp_path token suffix = concat (guest_temp_dir ∷ "\\infraops-" ∷ token ∷ "." ∷ suffix ∷ [])

unfoldable pub powershell_file_arguments : String → String
powershell_file_arguments script_path =
    concat ("-NoProfile -NonInteractive -ExecutionPolicy Bypass -File \"" ∷ script_path ∷ "\"" ∷ [])
