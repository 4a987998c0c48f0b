-- ===== src/Dlc/Tests.antt =====
-- A registry of three packages: `app` needs `lib` and a name that is no package, `lib` needs `base`,
-- which is required.
use bmt_ai_os.Prelude.{
  ℕ, ◌≡◌, ◌≢◌, ◌↔◌, refl, sym, String, Bool, true, false, none, some, List, [], ◌∷◌, str_eq,
  str_eq_iff, if◌then◌else◌, arith, Bool-cases, inl, inr,
}
use bmt_ai_os.Prelude.Dict
use bmt_ai_os.Prelude.Dict.{Dict, contains, IsDistinct}
use bmt_ai_os.Dlc.Registry.{
  ToolPackage, PackageRegistry, resolve_dependencies, visit, each, get_required_packages,
}
use bmt_ai_os.Dlc.Registry.Total.{resolve_dependencies-total}
use bmt_ai_os.Dlc.Registry.Closure.{Needs, roots, resolve_dependencies-closure}
use bmt_ai_os.Dlc.Registry.Order.{InOrder, Falls, resolve_dependencies-InOrder}

abbrev package_of : String → Bool → List String → ToolPackage
package_of id required deps = record {
  id = id;
  name = id;
  category = "tools";
  size_mb = 10;
  arm64 = true;
  required = required;
  tier_minimum = "lite";
  dependencies = deps;
  hardware_requirements = record { min_ram_gb = 1; gpu_recommended = false };
}

abbrev registry : PackageRegistry
registry = record {
  packages =
      ("app", package_of "app" false ("lib" ∷ "ghost" ∷ []))
      ∷ ("lib", package_of "lib" false ("base" ∷ []))
      ∷ ("base", package_of "base" true [])
      ∷ [];
  targets = [];
  tiers = [];
}

abbrev result : List String
result = "base" ∷ "lib" ∷ "app" ∷ []

resolved : resolve_dependencies ("app" ∷ []) registry ≡ some result
unfolding resolve_dependencies visit each get_required_packages contains Dict.get
resolved = refl

resolve_dependencies-total_example :
    (out : List String) × (resolve_dependencies ("app" ∷ []) registry ≡ some out)
resolve_dependencies-total_example = resolve_dependencies-total ("app" ∷ []) registry

resolve_dependencies-closure_example :
    IsDistinct result
    × ((k : String)
        → (contains k result ≡ true) ↔ (
            (Dict.get registry.packages k ≢ none)
            × Needs registry.packages (roots ("app" ∷ []) registry) k))
resolve_dependencies-closure_example =
    resolve_dependencies-closure ("app" ∷ []) registry result resolved

abbrev rank : String → ℕ
rank k =
    if str_eq "app" k then 3 else if str_eq "lib" k then 2 else if str_eq "base" k then 1 else 0

registry-Falls : Falls registry.packages rank
unfolding Dict.get contains
registry-Falls k j p e m = elim (Bool-cases (str_eq "app" k)) [
  | inl a ↦
      let deps : p.dependencies ≡ "lib" ∷ "ghost" ∷ [] = ground (arith, rw a at e) in
      elim (Bool-cases (str_eq "lib" j)) [
        | inl l ↦
            let is_lib : "lib" ≡ j = (str_eq_iff "lib" j).0 l in rw (a, sym is_lib) (omega arith)
        | inr l ↦ elim (Bool-cases (str_eq "ghost" j)) [
          | inl g ↦
              let is_ghost : "ghost" ≡ j = (str_eq_iff "ghost" j).0 g in
              rw (a, sym is_ghost) (omega arith)
          | inr g ↦ absurd (ground (arith, rw deps at m, l, g))
        ]
      ]
  | inr a ↦ elim (Bool-cases (str_eq "lib" k)) [
    | inl l ↦
        let deps : p.dependencies ≡ "base" ∷ [] = ground (arith, rw (a, l) at e) in
        elim (Bool-cases (str_eq "base" j)) [
          | inl b ↦
              let is_base : "base" ≡ j = (str_eq_iff "base" j).0 b in
              rw (a, l, sym is_base) (omega arith)
          | inr b ↦ absurd (ground (arith, rw deps at m, b))
        ]
    | inr l ↦ elim (Bool-cases (str_eq "base" k)) [
      | inl b ↦
          let deps : p.dependencies ≡ [] = ground (arith, rw (a, l, b) at e) in
          absurd (ground (arith, rw deps at m))
      | inr b ↦ absurd (ground (arith, rw (a, l, b) at e))
    ]
  ]
]

resolve_dependencies-InOrder_example : InOrder registry.packages [] result
resolve_dependencies-InOrder_example =
    resolve_dependencies-InOrder ("app" ∷ []) registry rank result registry-Falls resolved
