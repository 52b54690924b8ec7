-- ===== src/Placement.antt =====
-- The automatic choice of a datastore: backend/app/services/provisioning/placement.py. Sizes are whole
-- gigabytes; names are folded by `lower`, as they are ASCII.
use infra_ops.Prelude.{
  ℕ, suc, ◌≡◌, refl, Bool, true, false, not, ◌&&◌, String, List, [], ◌∷◌, ◌++◌, Option, none, some,
  arith, leb, ltb, any, filter_if, length, concat, strip, lower, truthy_text, or_else, subst,
  Bool-cases, inl, inr, if◌then◌else◌,
}
use infra_ops.Repository.Table.{codes_eq}
use infra_ops.Prelude.Decimal.{show}

-- The parts of DatastoreOut that the choice reads.
pub record Datastore : Type 0 where
  pub name : String
  pub accessible : Bool
  pub free_gb : ℕ

pub record DatastoreChoice : Type 0 where
  pub datastore : Option Datastore
  pub detail : String
  pub preferred_configured : Bool

-- The loop of normalize_preferred.
unfoldable pub normalize : List (List ℕ) → List String → List String
normalize seen [] = []
normalize seen (raw ∷ raws) =
    let name = strip raw in
    let added = normalize (lower name ∷ seen) raws in
    let same = normalize seen raws in
    if truthy_text name && not (any (codes_eq (lower name)) seen) then name ∷ added else same

unfoldable pub normalize_preferred : Option (List String) → List String
normalize_preferred none = []
normalize_preferred (some names) = normalize [] names

-- An accessible datastore with room.
abbrev pub fits : ℕ → Datastore → Bool
fits required_gb d = d.accessible && leb required_gb d.free_gb

-- The first of the datastores with the most free space.
abbrev better : Datastore → Option Datastore → Option Datastore
better d none = some d
better d (some e) = if ltb d.free_gb e.free_gb then some e else some d

unfoldable pub most_free : List Datastore → Option Datastore
most_free [] = none
most_free (d ∷ ds) = better d (most_free ds)

abbrev free_or_zero : Option Datastore → ℕ
free_or_zero none = 0
free_or_zero (some d) = d.free_gb

-- The choice where no datastores are preferred.
unfoldable pub choose_most_free : List Datastore → ℕ → Option Datastore → DatastoreChoice
choose_most_free datastores required_gb none =
    let largest = free_or_zero (most_free (filter_if (λ d. d.accessible) datastores)) in
    record {
      datastore = none;
      detail = concat (
          "No accessible datastore has "
          ∷ show required_gb
          ∷ " GB free (largest: "
          ∷ show largest
          ∷ " GB)."
          ∷ []);
      preferred_configured = false;
    }
choose_most_free datastores required_gb (some best) = record {
  datastore = some best;
  detail = concat (
      best.name
      ∷ " ("
      ∷ show best.free_gb
      ∷ " GB free): the datastore with the most free space, because no preferred datastores are configured"
      ∷ []);
  preferred_configured = false;
}

-- `by_name.get(name.casefold())`: the last of the datastores of the name.
abbrev later_or : Option Datastore → Option Datastore → Option Datastore
later_or (some d) e = some d
later_or none e = e

unfoldable pub by_name : List ℕ → List Datastore → Option Datastore
by_name key [] = none
by_name key (d ∷ ds) =
    later_or (by_name key ds) (if codes_eq (lower d.name) key then some d else none)

abbrev join_problems : List String → List String
join_problems [] = []
join_problems (p ∷ []) = p ∷ []
join_problems (p ∷ ps) = p ∷ "; " ∷ join_problems ps

-- Why a preferred datastore cannot be taken; `none` where it can.
unfoldable pub problem : String → ℕ → Option Datastore → Option String
problem name required_gb none =
    some (concat (name ∷ " is not connected to this compute target" ∷ []))
problem name required_gb (some d) =
    if not d.accessible
    then some (concat (d.name ∷ " is not accessible" ∷ []))
    else if ltb d.free_gb required_gb
    then some (concat (d.name ∷ " has " ∷ show d.free_gb ∷ " GB free" ∷ []))
    else none

-- The choice of a preferred datastore that can be taken.
abbrev taken : Datastore → ℕ → ℕ → DatastoreChoice
taken d rank total = record {
  datastore = some d;
  detail = concat (
      d.name
      ∷ " (preferred datastore "
      ∷ show rank
      ∷ " of "
      ∷ show total
      ∷ ", "
      ∷ show d.free_gb
      ∷ " GB free)"
      ∷ []);
  preferred_configured = true;
}

-- One round of the loop over the preferred names: the datastore is taken if nothing speaks against it.
unfoldable pub settle : Option Datastore → Option String → ℕ → ℕ → DatastoreChoice → DatastoreChoice
settle (some d) none rank total rest = taken d rank total
settle none none rank total rest = rest
settle found (some reason) rank total rest = rest

unfoldable pub choose_preferred :
    List Datastore → ℕ → ℕ → ℕ → List String → List String → DatastoreChoice
choose_preferred datastores required_gb total rank problems [] = record {
  datastore = none;
  detail = concat (
      "None of the preferred datastores can take the "
      ∷ show required_gb
      ∷ " GB this VM needs: "
      ∷ (join_problems problems ++ "." ∷ []));
  preferred_configured = true;
}
choose_preferred datastores required_gb total rank problems (name ∷ names) =
    let found = by_name (lower name) datastores in
    let reason = problem name required_gb found in
    let rest =
      choose_preferred datastores required_gb total (suc rank) (problems ++ or_else reason "" ∷ [])
        names in
    settle found reason rank total rest

-- choose_automatic_datastore, by the normalised names.
unfoldable pub choose_by : List Datastore → ℕ → List String → DatastoreChoice
choose_by datastores required_gb [] =
    choose_most_free datastores required_gb (most_free (filter_if (fits required_gb) datastores))
choose_by datastores required_gb (name ∷ names) =
    choose_preferred datastores required_gb (length (name ∷ names)) 1 [] (name ∷ names)

unfoldable pub choose_automatic_datastore :
    List Datastore → Option (List String) → ℕ → DatastoreChoice
choose_automatic_datastore datastores preferred required_gb =
    choose_by datastores required_gb (normalize_preferred preferred)

-- Every datastore that an option holds can take the VM.
abbrev AllFits : ℕ → Option Datastore → Type 0
AllFits required_gb none = Unit {0}
AllFits required_gb (some d) = fits required_gb d ≡ true

better-AllFits :
    (required_gb : ℕ) (d : Datastore) (o : Option Datastore)
    → fits required_gb d ≡ true
    → AllFits required_gb o
    → AllFits required_gb (better d o)
better-AllFits required_gb d none h hs = h
better-AllFits required_gb d (some e) h hs = elim (Bool-cases (ltb d.free_gb e.free_gb)) [
  | inl more ↦ rw (more, AllFits) hs
  | inr less ↦ rw (less, AllFits) h
]

most_free-AllFits :
    (required_gb : ℕ) (ds : List Datastore)
    → AllFits required_gb (most_free (filter_if (fits required_gb) ds))
unfolding most_free
most_free-AllFits required_gb [] = tt
most_free-AllFits required_gb (d ∷ ds) = elim (Bool-cases (fits required_gb d)) [
  | inl room ↦ rw room (better-AllFits required_gb d _ room (most_free-AllFits required_gb ds))
  | inr full ↦ rw full (most_free-AllFits required_gb ds)
]

choose_most_free-AllFits :
    (ds : List Datastore) (required_gb : ℕ) (best : Option Datastore)
    → AllFits required_gb best
    → AllFits required_gb (choose_most_free ds required_gb best).datastore
unfolding choose_most_free
choose_most_free-AllFits ds required_gb none h = tt
choose_most_free-AllFits ds required_gb (some best) h = h

settle-AllFits :
    (name : String) (required_gb : ℕ) (found : Option Datastore) (reason : Option String)
    (rank total : ℕ) (rest : DatastoreChoice)
    → problem name required_gb found ≡ reason
    → AllFits required_gb rest.datastore
    → AllFits required_gb (settle found reason rank total rest).datastore
unfolding settle problem
settle-AllFits name required_gb (some d) none rank total rest e h = ground (arith, e)
settle-AllFits name required_gb none none rank total rest e h = h
settle-AllFits name required_gb none (some reason) rank total rest e h = h
settle-AllFits name required_gb (some d) (some reason) rank total rest e h = h

choose_preferred-AllFits :
    (ds : List Datastore) (required_gb total rank : ℕ) (problems names : List String)
    → AllFits required_gb (choose_preferred ds required_gb total rank problems names).datastore
unfolding choose_preferred
choose_preferred-AllFits ds required_gb total rank problems [] = tt
choose_preferred-AllFits ds required_gb total rank problems (name ∷ names) =
    let found = by_name (lower name) ds in
    settle-AllFits name required_gb found (problem name required_gb found) rank total _ refl
      (choose_preferred-AllFits ds required_gb total (suc rank) _ names)

choose_by-AllFits :
    (ds : List Datastore) (required_gb : ℕ) (names : List String)
    → AllFits required_gb (choose_by ds required_gb names).datastore
unfolding choose_by
choose_by-AllFits ds required_gb [] =
    choose_most_free-AllFits ds required_gb _ (most_free-AllFits required_gb ds)
choose_by-AllFits ds required_gb (name ∷ names) =
    choose_preferred-AllFits ds required_gb _ 1 [] (name ∷ names)

-- A datastore that is chosen automatically, with or without preferred names, is accessible and has room
-- for the VM.
pub choose_automatic_datastore-fits :
    (ds : List Datastore) (preferred : Option (List String)) (required_gb : ℕ) (chosen : Datastore)
    → (choose_automatic_datastore ds preferred required_gb).datastore ≡ some chosen
    → fits required_gb chosen ≡ true
unfolding choose_automatic_datastore
choose_automatic_datastore-fits ds preferred required_gb chosen e =
    subst (AllFits required_gb) e (choose_by-AllFits ds required_gb (normalize_preferred preferred))
