-- ===== src/Client/Id.antt =====
-- wci/client/id.go: the identifier of an instance's workflow, and the names read back from it. A
-- string is the list of its codes.
pub mod RoundTrip
use temporal_auto_scaled_wor.Prelude.{
  ℕ, String, Option, none, some, List, [], ◌∷◌, ◌++◌, codes, ◌==◌, if◌then◌else◌, Result, ok, err,
}

abbrev pub Str : Type 0
Str = List ℕ

pub record DeploymentVersion : Type 0 where
  pub deployment_name : Str
  pub build_id : Str

abbrev pub delimiter : ℕ
delimiter = b':'

unfoldable pub workflow_id_prefix : Str
workflow_id_prefix = codes "temporal-sys-worker-controller-instance"

unfoldable pub generate_workflow_id : DeploymentVersion → Str
generate_workflow_id v =
    workflow_id_prefix ++ (delimiter ∷ (v.deployment_name ++ (delimiter ∷ v.build_id)))

abbrev pub push_first : ℕ → List Str → List Str
push_first c [] = (c ∷ []) ∷ []
push_first c (p ∷ ps) = (c ∷ p) ∷ ps

-- `strings.Split` at a separator of one byte.
unfoldable pub split : ℕ → Str → List Str
split d [] = [] ∷ []
split d (c ∷ cs) = let rest = split d cs in if c == d then [] ∷ rest else push_first c rest

-- A split always has a first part, so the clause for none is never used.
abbrev pub version_of_parts : List Str → DeploymentVersion
version_of_parts (p ∷ name ∷ build ∷ ps) = record { deployment_name = name; build_id = build }
version_of_parts (p ∷ ps) = record { deployment_name = p; build_id = [] }
version_of_parts [] = record { deployment_name = []; build_id = [] }

unfoldable pub version_of_workflow_id : Str → DeploymentVersion
version_of_workflow_id s = version_of_parts (split delimiter s)
