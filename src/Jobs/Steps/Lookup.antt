-- ===== src/Jobs/Steps/Lookup.antt =====
-- Laws of the lookup by stage key, and the part of a step that only the pipeline writes.
use infra_ops.Prelude.{
  String, List, [], ◌∷◌, Option, none, some, map, ◌≡◌, ◌≢◌, refl, arith, eq_iff,
}
use infra_ops.Jobs.Rows.{Step}
use infra_ops.Jobs.Steps.{find_step, update_step}

-- A change of a step that leaves its key alone.
abbrev pub KeepsKey : (Step → Step) → Type 0
KeepsKey f = (s : Step) → (f s).stage_key ≡ s.stage_key

abbrev pub map_option {ℓ κ} : {A : Type ℓ} {B : Type κ} → (A → B) → Option A → Option B
map_option f none = none
map_option f (some a) = some (f a)

pub find_step-update_step_self :
    (k : String) (f : Step → Step) (ss : List Step)
    → KeepsKey f
    → find_step k (update_step k f ss) ≡ map_option f (find_step k ss)
unfolding find_step update_step
find_step-update_step_self k f [] keeps = refl
find_step-update_step_self k f (s ∷ ss) keeps =
    ground (arith, keeps s, eq_iff s.stage_key k, find_step-update_step_self k f ss keeps)

pub find_step-update_step_ne :
    (k j : String) (f : Step → Step) (ss : List Step)
    → KeepsKey f
    → j ≢ k
    → find_step k (update_step j f ss) ≡ find_step k ss
unfolding find_step update_step
find_step-update_step_ne k j f [] keeps ne = refl
find_step-update_step_ne k j f (s ∷ ss) keeps ne =
    ground (
      arith,
      keeps s,
      eq_iff s.stage_key k,
      eq_iff s.stage_key j,
      find_step-update_step_ne k j f ss,
    )

pub find_step-map :
    (k : String) (f : Step → Step) (ss : List Step)
    → KeepsKey f
    → find_step k (map f ss) ≡ map_option f (find_step k ss)
unfolding find_step
find_step-map k f [] keeps = refl
find_step-map k f (s ∷ ss) keeps =
    ground (arith, keeps s, eq_iff s.stage_key k, find_step-map k f ss keeps)
