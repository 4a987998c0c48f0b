-- ===== src/Dlc/Registry/Total.antt =====
-- The recursion of `_resolve` ends, whatever the dependencies are: cycles included.
use bmt_ai_os.Prelude.{
  ℕ, zero, suc, ◌+◌, ◌≤◌, ◌<◌, ◌≡◌, refl, inl, inr, String, true, false, Bool-cases, Option, some,
  Option-cases, List, [], ◌∷◌, ◌++◌, length, str_eq_iff, arith, if◌then◌else◌,
}
use bmt_ai_os.Prelude.Dict
use bmt_ai_os.Prelude.Dict.{Dict, contains}
use bmt_ai_os.Dlc.Registry.{
  ToolPackage, PackageRegistry, Walk, each, visit, ids, get_required_packages, resolve_dependencies,
}
use bmt_ai_os.Dlc.Registry.Steps.{contains-cons}
use bmt_ai_os.Dlc.Registry.Growth.{Visits-visit}

-- The packages not yet seen.
unseen : Dict ToolPackage → List String → ℕ
unseen [] seen = 0
unseen ((k, p) ∷ d) seen = let rest = unseen d seen in if contains k seen then rest else suc rest

unseen-le-length : (d : Dict ToolPackage) (seen : List String) → unseen d seen ≤ length d
unfolding unseen
unseen-le-length [] seen = omega arith
unseen-le-length ((k, p) ∷ d) seen = ground (arith, unseen-le-length d seen)

unseen_mono :
    (d : Dict ToolPackage) (s t : List String)
    → ((k : String) → contains k s ≡ true → contains k t ≡ true)
    → unseen d t ≤ unseen d s
unfolding unseen
unseen_mono [] s t h = omega arith
unseen_mono ((k, p) ∷ d) s t h = ground (arith, h k, unseen_mono d s t h)

cons_keeps : (j x : String) (s : List String) → contains j s ≡ true → contains j (x ∷ s) ≡ true
cons_keeps j x s m = rw contains-cons (ground (arith, m))

unseen-cons :
    (d : Dict ToolPackage) (pid : String) (p : ToolPackage) (s : List String)
    → contains pid s ≡ false
    → Dict.get d pid ≡ some p
    → unseen d (pid ∷ s) < unseen d s
unfolding unseen Dict.get
unseen-cons [] pid p s n e = absurd (ground (arith, e))
unseen-cons ((k, q) ∷ d) pid p s n e = ground (
  arith,
  n,
  e,
  str_eq_iff k pid,
  str_eq_iff pid k,
  contains-cons k pid s,
  unseen-cons d pid p s n,
  unseen_mono d s (pid ∷ s) (λ (j : String) (m : contains j s ≡ true). cons_keeps j pid s m),
)

module _ (d : Dict ToolPackage) where
  -- A call answers wherever fewer packages are unseen than it has fuel.
  abbrev Answers : ℕ → (String → Walk → Option Walk) → Type 0
  Answers fuel call =
      (pid : String) (w : Walk) → unseen d w.seen < fuel → (w' : Walk) × (call pid w ≡ some w')

  each-Answers :
      (fuel : ℕ)
      → Answers fuel (visit d fuel)
      → (pids : List String) (w : Walk) → unseen d w.seen < fuel
      → (w' : Walk) × (each (visit d fuel) pids w ≡ some w')
  unfolding each
  each-Answers fuel a [] w h = (w, refl)
  each-Answers fuel a (pid ∷ pids) w h =
      let (v, e) = a pid w h in
      let more = (Visits-visit d fuel pid w v e).0.keeps in
      let (w', f) = each-Answers fuel a pids v (omega (arith, unseen_mono d w.seen v.seen more)) in
      (w', rw (each, e) f)

  visit-Answers : (fuel : ℕ) → Answers fuel (visit d fuel)
  unfolding visit
  visit-Answers zero pid w h = absurd (omega arith)
  visit-Answers (suc fuel) pid w h = elim (Bool-cases (contains pid w.seen)) [
    | inl s ↦ (w, rw (visit, s) refl)
    | inr s ↦ elim (Option-cases (Dict.get d pid)) [
      | inl e ↦ (record w { seen = pid ∷ w.seen }, rw (visit, s, e) refl)
      | inr (p, e) ↦
          let (v, f) =
            each-Answers fuel (visit-Answers fuel) p.dependencies (record w { seen = pid ∷ w.seen })
              (omega (arith, unseen-cons d pid p w.seen s e, h)) in
          (record v { resolved = v.resolved ++ pid ∷ [] }, rw (visit, s, e, f) refl)
    ]
  ]

-- `resolve_dependencies` returns for every registry and every list of names.
pub resolve_dependencies-total :
    (pids : List String) (r : PackageRegistry)
    → (out : List String) × (resolve_dependencies pids r ≡ some out)
unfolding resolve_dependencies
resolve_dependencies-total pids r =
    let fuel = 1 + length r.packages in
    let (w, e) =
      each-Answers r.packages fuel (visit-Answers r.packages fuel)
        (ids (get_required_packages r) ++ pids) (record { seen = []; resolved = [] })
        (omega (arith, unseen-le-length r.packages [])) in
    (w.resolved, rw (resolve_dependencies, e) refl)
