-- ===== src/Dlc/Registry.antt =====
-- PackageRegistry in bmt_ai_os/dlc/registry.py. The fields that only describe a package are left out.
pub mod Steps
pub mod Growth
pub mod Total
pub mod Closure
pub mod Order
use bmt_ai_os.Prelude.{
  ℕ, zero, suc, ◌+◌, ◌*◌, String, Bool, true, false, not, ◌&&◌, ◌||◌, Option, none, some, List, [],
  ◌∷◌, ◌++◌, ltb, leb, str_eq, if◌then◌else◌, length,
}
use bmt_ai_os.Prelude.Dict
use bmt_ai_os.Prelude.Dict.{Dict, contains}

pub record HardwareRequirements : Type 0 where
  pub min_ram_gb : ℕ
  pub gpu_recommended : Bool

pub record ToolPackage : Type 0 where
  pub id : String
  pub name : String
  pub category : String
  pub size_mb : ℕ
  pub arm64 : Bool
  pub required : Bool
  pub tier_minimum : String
  pub dependencies : List String
  pub hardware_requirements : HardwareRequirements

pub record HardwareTarget : Type 0 where
  pub id : String
  pub name : String
  pub arch : String
  pub accelerator : String

pub record DeviceTier : Type 0 where
  pub id : String
  pub name : String
  pub max_ram_gb : ℕ
  pub max_image_size_gb : ℕ

pub record PackageRegistry : Type 0 where
  pub packages : Dict ToolPackage
  pub targets : Dict HardwareTarget
  pub tiers : Dict DeviceTier

values : Dict ToolPackage → List ToolPackage
values [] = []
values ((k, p) ∷ d) = p ∷ values d

-- The loop of the constructor over the packages of the file: a later one takes the place of an earlier
-- one with its `id`.
unfoldable pub load_packages : List ToolPackage → Dict ToolPackage → Dict ToolPackage
load_packages [] d = d
load_packages (p ∷ ps) d = load_packages ps (Dict.put d p.id p)

filter : (ToolPackage → Bool) → List ToolPackage → List ToolPackage
filter f [] = []
filter f (p ∷ ps) = let rest = filter f ps in if f p then p ∷ rest else rest

-- `none` and the empty text choose every category.
unfoldable pub list_packages : Option String → PackageRegistry → List ToolPackage
unfolding values filter
list_packages none r = values r.packages
list_packages (some category) r =
    if str_eq category ""
    then values r.packages
    else filter (λ p. str_eq p.category category) (values r.packages)

unfoldable pub get_package : String → PackageRegistry → Option ToolPackage
get_package id r = Dict.get r.packages id

unfoldable pub get_required_packages : PackageRegistry → List ToolPackage
unfolding values filter
get_required_packages r = filter (λ p. p.required) (values r.packages)

-- `tier_order.index(id)`; `none` is its `ValueError`.
unfoldable pub tier_index : String → Option ℕ
tier_index id =
    if str_eq id "lite"
    then some 0
    else if str_eq id "standard"
    then some 1
    else if str_eq id "full"
    then some 2
    else none

up_to : ℕ → List ToolPackage → Option (List ToolPackage)
up_to max [] = some []
up_to max (p ∷ ps) = elim (tier_index p.tier_minimum) [
  | none ↦ none
  | some i ↦ elim (up_to max ps) [
    | none ↦ none
    | some rest ↦ if leb i max then some (p ∷ rest) else some rest
  ]
]

-- `none` where a package has an unknown tier.
unfoldable pub get_packages_for_tier : String → PackageRegistry → Option (List ToolPackage)
unfolding values up_to
get_packages_for_tier id r = elim (tier_index id) [
  | none ↦ some []
  | some max ↦ up_to max (values r.packages)
]

-- What `_resolve` shares with its recursive calls: `seen` as a list, and `resolved`.
pub record Walk : Type 0 where
  pub seen : List String
  pub resolved : List String

-- `for pid in pids: _resolve(pid)`, for a call that may run out of fuel.
unfoldable pub each : (String → Walk → Option Walk) → List String → Walk → Option Walk
each visit [] w = some w
each visit (pid ∷ pids) w = elim (visit pid w) [ none ↦ none | some w' ↦ each visit pids w' ]

module _ (d : Dict ToolPackage) where
  -- `_resolve`, with fuel for the depth of the recursion; `none` means that it ran out.
  unfoldable pub visit : ℕ → String → Walk → Option Walk
  visit zero pid w = none
  visit (suc fuel) pid w = elim (contains pid w.seen) [
    | true ↦ some w
    | false ↦
        let w' : Walk = record w { seen = pid ∷ w.seen } in
        elim (Dict.get d pid) [
          | none ↦ some w'
          | some p ↦ elim (each (visit fuel) p.dependencies w') [
            | none ↦ none
            | some w'' ↦ some (record w'' { resolved = w''.resolved ++ pid ∷ [] })
          ]
        ]
  ]

pub ids : List ToolPackage → List String
ids [] = []
ids (p ∷ ps) = p.id ∷ ids ps

-- A nested call sees a new package every time, so one more than the packages is fuel enough.
unfoldable pub resolve_dependencies : List String → PackageRegistry → Option (List String)
unfolding each ids
resolve_dependencies pids r =
    elim (each (visit r.packages (1 + length r.packages)) (ids (get_required_packages r) ++ pids)
      (record { seen = []; resolved = [] })) [ none ↦ none | some w ↦ some w.resolved ]

unfoldable pub estimate_image_size_mb : List String → PackageRegistry → ℕ
estimate_image_size_mb [] r = 200
estimate_image_size_mb (pid ∷ pids) r =
    let rest = estimate_image_size_mb pids r in
    elim (Dict.get r.packages pid) [ none ↦ rest | some p ↦ rest + p.size_mb ]

-- The warnings, each with the texts that its message names.
pub data Warning : Type 0 where
  unknown_target unknown_tier unknown_package : String → Warning
  not_arm64 recommends_gpu : String → Warning
  needs_ram : String → ℕ → ℕ → Warning
  too_large : ℕ → ℕ → Warning

when : Bool → Warning → List Warning
when true w = w ∷ []
when false w = []

package_warnings : HardwareTarget → DeviceTier → String → Option ToolPackage → List Warning
unfolding when
package_warnings target tier pid none = unknown_package pid ∷ []
package_warnings target tier pid (some p) =
    when (not p.arm64 && str_eq target.arch "aarch64") (not_arm64 p.name)
    ++ when (p.hardware_requirements.gpu_recommended && str_eq target.accelerator "cpu")
        (recommends_gpu p.name)
    ++ when (ltb tier.max_ram_gb p.hardware_requirements.min_ram_gb)
        (needs_ram p.name p.hardware_requirements.min_ram_gb tier.max_ram_gb)

all_warnings : HardwareTarget → DeviceTier → PackageRegistry → List String → List Warning
unfolding package_warnings
all_warnings target tier r [] = []
all_warnings target tier r (pid ∷ pids) =
    package_warnings target tier pid (Dict.get r.packages pid) ++ all_warnings target tier r pids

-- The size is compared without the division: `est_mb / 1024 > limit`.
unfoldable pub validate_packages_for_target :
    List String → String → String → PackageRegistry → List Warning
unfolding all_warnings when
validate_packages_for_target pids target_id tier_id r = elim (Dict.get r.targets target_id) [
  | none ↦ unknown_target target_id ∷ []
  | some target ↦ elim (Dict.get r.tiers tier_id) [
    | none ↦ unknown_tier tier_id ∷ []
    | some tier ↦
        let size = estimate_image_size_mb pids r in
        all_warnings target tier r pids
        ++ when (ltb (tier.max_image_size_gb * 1024) size) (too_large size tier.max_image_size_gb)
  ]
]
