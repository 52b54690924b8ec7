-- ===== src/Witnesses/Checks.antt =====
-- Addresses, applications and requests at concrete inputs.
use infra_ops.Prelude.{
  ℕ, suc, ◌≤◌, String, ◌≡◌, refl, true, List, [], ◌∷◌, ◌++◌, some, strip, str_mem, concat, length,
  arith,
}
use infra_ops.Prelude.Decimal.{show}
use Prim.Native.String
use infra_ops.Prelude.{Bool, leb, codes, ◌||◌, ◌&&◌, ◌==◌}
use infra_ops.Guest.{ps_quote, new_temp_path, powershell_file_arguments}
use infra_ops.Guest.Literals.{read_literal, read_literal-ps_quote}
use infra_ops.Network.Address.{
  parse_ipv4, parse_octet, split_on, show_ipv4, network_address, broadcast_address, in_network,
}
use infra_ops.Network.Masks.{prefix_to_mask, mask_to_prefix, mask_to_prefix-prefix_to_mask}
use infra_ops.Network.Static.{validate_static_ipv4, prefix_issues, subnet_issues, dns_issues}
use infra_ops.Network.Usable.{AreHosts, Servers, validate_static_ipv4_lem}
use infra_ops.Applications.Catalog.{AppNode, Catalog, find, sort_ids, sort_by}
use infra_ops.Applications.Search.{Search, start, visit, visit_each, enter}
use infra_ops.Applications.Order.{collect_edges, add_edges, kahn, release_all}
use infra_ops.Applications.Resolve.{
  Resolution, disabled_errors, nodes_of, sort_required, resolve_install_order,
}
use infra_ops.Applications.Installed.{
  Installs, resolve_install_order_returns, resolve_install_order_lem,
}

mask_to_prefix-prefix_to_mask_example :
    (s : String) × (prefix_to_mask 24 ≡ some s) × (mask_to_prefix s ≡ some 24)
mask_to_prefix-prefix_to_mask_example = mask_to_prefix-prefix_to_mask 24 (omega arith)

abbrev dns : List String
dns = "10.20.0.10" ∷ " 10.20.0.11 " ∷ []

no_issues : validate_static_ipv4 "10.20.0.5" 24 "10.20.0.1" dns ≡ []
unfolding validate_static_ipv4 prefix_issues subnet_issues dns_issues parse_ipv4 parse_octet
    split_on show_ipv4 show network_address broadcast_address in_network strip str_mem concat
no_issues = refl

validate_static_ipv4_lem_example :
    (a : ℕ) × (g : ℕ) × (ns : List ℕ) × (parse_ipv4 (strip "10.20.0.5") ≡ some a)
    × (parse_ipv4 (strip "10.20.0.1") ≡ some g)
    × (8 ≤ 24)
    × (24 ≤ 30)
    × AreHosts 24 a g
    × Servers dns ns
validate_static_ipv4_lem_example = validate_static_ipv4_lem "10.20.0.5" 24 "10.20.0.1" dns no_issues

abbrev node : ℕ → String → List ℕ → AppNode
node id name deps = record { id = id; name = name; enabled = true; dependency_ids = deps }

abbrev agent : AppNode
agent = node 1 "Agent" (3 ∷ 2 ∷ [])

abbrev runtime : AppNode
runtime = node 2 "Runtime" (3 ∷ [])

abbrev base : AppNode
base = node 3 "Base" []

abbrev apps : Catalog
apps = (1, agent) ∷ (2, runtime) ∷ (3, base) ∷ (4, node 4 "Other" []) ∷ []

abbrev no_text : ℕ → String
no_text id = "?"

abbrev plan : Resolution
plan = record { ordered = base ∷ runtime ∷ agent ∷ []; errors = [] }

planned : resolve_install_order no_text (1 ∷ []) apps ≡ some plan
unfolding resolve_install_order visit visit_each enter find sort_ids start disabled_errors
    sort_required collect_edges add_edges kahn release_all sort_by nodes_of
planned = refl

resolve_install_order_lem_example : Installs no_text apps (1 ∷ []) plan.ordered
resolve_install_order_lem_example =
    resolve_install_order_lem no_text apps (1 ∷ []) (refl, (refl, (refl, (refl, tt)))) plan planned
      refl

resolve_install_order_returns_example :
    (t : Search) × (r : Resolution) × (visit_each no_text apps
        (visit no_text apps (suc (length apps)))
        (1 ∷ [])
        start
      ≡ some t)
    × (resolve_install_order no_text (1 ∷ []) apps ≡ some r)
    × (r.errors ≡ t.errors ++ disabled_errors t.required)
resolve_install_order_returns_example = resolve_install_order_returns no_text apps (1 ∷ [])

-- The characters that PowerShell takes for a single quote.
abbrev single_quote : ℕ → Bool
single_quote c = c == 0x27 || (leb 0x2018 c && leb c 0x201b)

read_literal-ps_quote_example :
    read_literal single_quote (String.◌++◌ (ps_quote "C:/O'Brien") ") { exit 0 }")
    ≡ some ("C:/O'Brien", ") { exit 0 }")
read_literal-ps_quote_example =
    read_literal-ps_quote single_quote "C:/O'Brien" ") { exit 0 }" refl refl refl

quoted : ps_quote "O'Brien" ≡ "'O''Brien'"
unfolding ps_quote
quoted = refl

-- A typographic apostrophe is not doubled, and ends the literal.
curly_quote : read_literal single_quote (ps_quote "a’;b") ≡ some ("a", ";b'")
unfolding ps_quote read_literal
curly_quote = refl

in_temp : new_temp_path "0f" "ps1" ≡ "C:\\Windows\\Temp\\infraops-0f.ps1"
unfolding new_temp_path concat
in_temp = refl

file_arguments :
    codes (powershell_file_arguments "a")
    ≡ codes "-NoProfile -NonInteractive -ExecutionPolicy Bypass -File \"a\""
unfolding powershell_file_arguments concat
file_arguments = refl
