-- ===== src/Network/Conflict.antt =====
-- The conflict check of backend/app/services/network/conflict.py: the providers and how their
-- results are put together. What ping, the resolver and the vCenter answer is a parameter.
use infra_ops.Prelude.{
  ℕ, String, Bool, true, false, ◌&&◌, ◌||◌, not, List, [], ◌∷◌, Option, none, some, any, count_if,
  concat, codes, lower, truthy_text, ◌==◌, if◌then◌else◌,
}
use infra_ops.Prelude.Decimal.{show}
use infra_ops.Prelude.Json.{lookup}
use infra_ops.Repository.Table.{codes_eq}

pub data ConflictProviderStatus : Type 0 where
  no_conflict conflict_detected not_configured error : ConflictProviderStatus

pub record ProviderResult : Type 0 where
  pub provider : String
  pub status : ConflictProviderStatus
  pub detail : String

-- A call that returns a value or raises; `raised` carries the name of the exception's class.
pub data Call {ℓ} (A : Type ℓ) : Type ℓ where
  returned : A → Call A
  raised : String → Call A

-- A provider: its name, and its check of an address and a prefix length.
pub record ConflictCheckProvider : Type 0 where
  pub name : String
  pub check : String → ℕ → Call ProviderResult

-- `needle in text`
abbrev pub starts_with : List ℕ → List ℕ → Bool
starts_with [] text = true
starts_with (c ∷ cs) [] = false
starts_with (c ∷ cs) (d ∷ text) = (c == d) && starts_with cs text

abbrev pub contains : List ℕ → List ℕ → Bool
contains needle [] = starts_with needle []
contains needle (d ∷ text) = starts_with needle (d ∷ text) || contains needle text

-- The run of the ping utility: its exit code and its output, or the text of a TimeoutError or
-- OSError.
pub data PingRun : Type 0 where
  exited : ℕ → String → PingRun
  failed : String → PingRun

abbrev icmp_name : String
icmp_name = "ICMP"

abbrev echoed : String → Bool
echoed text =
    contains (codes "ttl=") (lower text)
    || contains (codes "time<") (lower text)
    || contains (codes "time=") (lower text)

abbrev unreachable : String → Bool
unreachable text =
    contains (codes "unreachable") (lower text)
    || contains (codes "timed out") (lower text)
    || contains (codes "could not find host") (lower text)

abbrev ping_result : String → PingRun → ProviderResult
ping_result address (failed exc) = record {
  provider = icmp_name;
  status = error;
  detail = concat ("Ping could not be executed: " ∷ exc ∷ []);
}
ping_result address (exited returncode text) =
    if (returncode == 0) && echoed text && not (unreachable text)
    then record {
      provider = icmp_name;
      status = conflict_detected;
      detail = concat ("A device responded to ICMP echo at " ∷ address ∷ "." ∷ []);
    }
    else record {
      provider = icmp_name;
      status = no_conflict;
      detail = "No ICMP response received (may simply be filtered).";
    }

-- `installed` is whether shutil.which finds the utility.
abbrev check_icmp : Bool → (String → PingRun) → String → ProviderResult
check_icmp false ping address = record {
  provider = icmp_name;
  status = not_configured;
  detail = "ICMP probe is unavailable because the ping utility is not installed.";
}
check_icmp true ping address = ping_result address (ping address)

unfoldable pub icmp_ping_provider : Bool → (String → PingRun) → ConflictCheckProvider
icmp_ping_provider installed ping = record {
  name = icmp_name;
  check = λ address prefix. returned (check_icmp installed ping address);
}

-- `if hostname:` of socket.gethostbyaddr, which is none where the lookup raises.
abbrev looked_up : String → Option String → ProviderResult
looked_up name none = record {
  provider = name;
  status = no_conflict;
  detail = "No PTR record found.";
}
looked_up name (some hostname) =
    if truthy_text hostname
    then record {
      provider = name;
      status = conflict_detected;
      detail = concat ("Reverse lookup resolves to '" ∷ hostname ∷ "'." ∷ []);
    }
    else record { provider = name; status = no_conflict; detail = "No PTR record found." }

unfoldable pub dns_provider : String → (String → Option String) → ConflictCheckProvider
dns_provider name gethostbyaddr = record {
  name = name;
  check = λ address prefix. returned (looked_up name (gethostbyaddr address));
}

abbrev inventory_name : String
inventory_name = "VMware inventory"

-- The owner that counts: none where it is empty, or the VM that may hold the address already.
unfoldable pub counted_owner : Option String → Option String → Option String
counted_owner exclude none = none
counted_owner none (some owner) = if truthy_text owner then some owner else none
counted_owner (some exclude) (some owner) =
    if truthy_text owner && not (truthy_text exclude && codes_eq (lower owner) (lower exclude))
    then some owner
    else none

abbrev owned_by : Option String → ProviderResult
owned_by none = record {
  provider = inventory_name;
  status = no_conflict;
  detail = "Not present in the vCenter guest inventory.";
}
owned_by (some owner) = record {
  provider = inventory_name;
  status = conflict_detected;
  detail = concat ("Address is assigned to VM '" ∷ owner ∷ "'." ∷ []);
}

-- get_used_ips maps addresses to VM names, or raises.
abbrev check_inventory : Call (List (String × String)) → Option String → String → ProviderResult
check_inventory (raised exc) exclude address = record {
  provider = inventory_name;
  status = error;
  detail = "Inventory could not be queried.";
}
check_inventory (returned used) exclude address =
    owned_by (counted_owner exclude (lookup address used))

unfoldable pub vmware_inventory_provider :
    Call (List (String × String)) → Option String → ConflictCheckProvider
vmware_inventory_provider used exclude_vm_name = record {
  name = inventory_name;
  check = λ address prefix. returned (check_inventory used exclude_vm_name address);
}

abbrev pub found_conflict : ConflictProviderStatus → Bool
found_conflict conflict_detected = true
found_conflict _ = false

abbrev is_definitive : ConflictProviderStatus → Bool
is_definitive no_conflict = true
is_definitive conflict_detected = true
is_definitive _ = false

abbrev is_available : ConflictProviderStatus → Bool
is_available not_configured = false
is_available _ = true

-- A provider that crashed counts as one that failed.
abbrev pub result_of : String → Call ProviderResult → ProviderResult
result_of name (returned r) = r
result_of name (raised exc) = record {
  provider = name;
  status = error;
  detail = concat ("Provider failed: " ∷ exc ∷ []);
}

-- The loop over the providers.
unfoldable pub run_providers : String → ℕ → List ConflictCheckProvider → List ProviderResult
run_providers address prefix [] = []
run_providers address prefix (p ∷ ps) =
    result_of p.name (p.check address prefix) ∷ run_providers address prefix ps

pub record IpConflictReport : Type 0 where
  pub address : String
  pub prefix : ℕ
  pub providers : List ProviderResult
  pub conflict_detected : Bool
  pub confidence_note : String

abbrev confidence_of : Bool → ℕ → ℕ → String
confidence_of true available definitive =
    "A potential conflict WAS detected — choose a different address."
confidence_of false available definitive =
    if available == 0
    then "No validation source was available; the address is unverified."
    else concat (
        "No conflict detected with "
        ∷ show available
        ∷ " available validation method(s) ("
        ∷ show definitive
        ∷ " returned a definitive answer). Validation confidence depends on the configured sources; a filtered network can hide active devices."
        ∷ [])

unfoldable pub run_conflict_check : String → ℕ → List ConflictCheckProvider → IpConflictReport
unfolding run_providers
run_conflict_check address prefix providers =
    let results = run_providers address prefix providers in
    let conflict = any (λ r. found_conflict r.status) results in
    record {
      address = address;
      prefix = prefix;
      providers = results;
      conflict_detected = conflict;
      confidence_note =
          confidence_of conflict (count_if (λ r. is_available r.status) results)
            (count_if (λ r. is_definitive r.status) results);
    }

-- default_providers; the inventory is asked where a vCenter is given.
abbrev inventory_of : Option (Call (List (String × String))) → List ConflictCheckProvider
inventory_of none = []
inventory_of (some used) = vmware_inventory_provider used none ∷ []

unfoldable pub default_providers :
    Bool
    → (String → PingRun)
    → (String → Option String)
    → Option (Call (List (String × String)))
    → List ConflictCheckProvider
unfolding icmp_ping_provider dns_provider vmware_inventory_provider
default_providers installed ping gethostbyaddr used =
    icmp_ping_provider installed ping
    ∷ dns_provider "DNS" gethostbyaddr
    ∷ dns_provider "Reverse DNS" gethostbyaddr
    ∷ inventory_of used
