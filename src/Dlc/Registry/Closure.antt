-- ===== src/Dlc/Registry/Closure.antt =====
-- What `resolve_dependencies` returns: the packages that are needed, each once.
use bmt_ai_os.Prelude.{
  ℕ, zero, suc, ◌+◌, ◌≡◌, ◌≢◌, ◌↔◌, refl, sym, inl, inr, String, true, Bool-cases, Option, none,
  some, Option-cases, List, [], ◌∷◌, ◌++◌, length, str_eq, str_eq_iff, str_eq_refl, arith,
}
use bmt_ai_os.Prelude.Dict
use bmt_ai_os.Prelude.Dict.{Dict, contains, IsDistinct}
use bmt_ai_os.Dlc.Registry.{
  ToolPackage, PackageRegistry, Walk, each, visit, ids, get_required_packages, resolve_dependencies,
}
use bmt_ai_os.Dlc.Registry.Steps.{contains-cons, visit-cases}
use bmt_ai_os.Dlc.Registry.Growth.{Grows, Visits-visit, Grows-each, each_seen}

-- The names that are asked for, and those that a package that is needed depends on.
pub data Needs (d : Dict ToolPackage) (roots : List String) : String → Type 0 where
  root : {k : String} → contains k roots ≡ true → Needs d roots k
  dependency :
      {k j : String} {p : ToolPackage}
      → Needs d roots k
      → Dict.get d k ≡ some p
      → contains j p.dependencies ≡ true
      → Needs d roots j

-- What is asked for: the required packages and the names given.
abbrev pub roots : List String → PackageRegistry → List String
roots pids r = ids (get_required_packages r) ++ pids

module _ (d : Dict ToolPackage) (asked : List String) where
  abbrev IsNeeded : Walk → Type 0
  IsNeeded w = (k : String) → contains k w.seen ≡ true → Needs d asked k

  abbrev KeepsNeeded : (String → Walk → Option Walk) → Type 0
  KeepsNeeded call =
      (pid : String) (w w' : Walk)
      → Needs d asked pid
      → call pid w ≡ some w'
      → IsNeeded w
      → IsNeeded w'

  each-IsNeeded :
      (call : String → Walk → Option Walk)
      → KeepsNeeded call
      → (pids : List String) (w w' : Walk)
      → ((j : String) → contains j pids ≡ true → Needs d asked j)
      → each call pids w ≡ some w'
      → IsNeeded w
      → IsNeeded w'
  unfolding each
  each-IsNeeded call c [] w w' n h i = let e : w ≡ w' = ground (arith, h) in rw (sym e) i
  each-IsNeeded call c (pid ∷ pids) w w' n h i = elim (Option-cases (call pid w)) [
    | inl e ↦ absurd (ground (arith, e, h))
    | inr (v, e) ↦
        each-IsNeeded call c pids v w' (λ j m. n j (rw contains-cons (ground (arith, m))))
          (rw (each, e) at h) (c pid w v (n pid (rw (contains-cons, str_eq_refl pid) refl)) e i)
  ]

  cons-IsNeeded :
      (pid : String) (w : Walk)
      → Needs d asked pid
      → IsNeeded w
      → IsNeeded (record w { seen = pid ∷ w.seen })
  cons-IsNeeded pid w n i k m = elim (Bool-cases (str_eq pid k)) [
    | inl same ↦ let e : pid ≡ k = (str_eq_iff pid k).0 same in rw (sym e) n
    | inr other ↦ i k (ground (arith, m, other, contains-cons k pid w.seen))
  ]

  visit-IsNeeded : (fuel : ℕ) → KeepsNeeded (visit d fuel)
  unfolding visit
  visit-IsNeeded zero pid w w' n h i = absurd (ground (arith, h))
  visit-IsNeeded (suc fuel) pid w w' n h i = elim (visit-cases d fuel pid w w' h) [
    | inl (s, e) ↦ rw e i
    | inr (inl (s, g, e)) ↦ rw e (cons-IsNeeded pid w n i)
    | inr (inr (s, p, v, g, f, e)) ↦ rw e (
        each-IsNeeded (visit d fuel) (visit-IsNeeded fuel) p.dependencies
          (record w { seen = pid ∷ w.seen }) v (λ j m. dependency n g m) f
          (cons-IsNeeded pid w n i))
  ]

-- The walk behind a result.
pub resolve_dependencies-walk :
    (pids : List String) (r : PackageRegistry) (out : List String)
    → resolve_dependencies pids r ≡ some out
    → (w : Walk) × (each
          (visit r.packages (1 + length r.packages))
          (roots pids r)
          (record { seen = []; resolved = [] })
        ≡ some w)
      × (out ≡ w.resolved)
unfolding resolve_dependencies
resolve_dependencies-walk pids r out h =
    elim (Option-cases (
      each (visit r.packages (1 + length r.packages)) (roots pids r)
        (record { seen = []; resolved = [] }))) [
          | inl e ↦ absurd (ground (arith, rw (resolve_dependencies, e) at h))
          | inr (w, e) ↦ (w, e, ground (arith, rw (resolve_dependencies, e) at h))
        ]

-- A walk that grew from nothing and saw what was asked for saw all that is needed.
seen-Needs :
    (d : Dict ToolPackage) (asked : List String) (w : Walk)
    → Grows d (record { seen = []; resolved = [] }) w
    → ((j : String) → contains j asked ≡ true → contains j w.seen ≡ true)
    → {k : String} → Needs d asked k
    → contains k w.seen ≡ true
unfolding contains
seen-Needs d asked w g s (root m) = s _ m
seen-Needs d asked w g s (dependency {k} {j} {p} n e m) =
    let known : Dict.get d k ≢ none = λ x. ground (arith, x, e) in
    g.closes k j p (g.finishes k (seen-Needs d asked w g s n) refl known) refl e m

-- The result of `resolve_dependencies` has no name twice, and holds exactly the packages of the registry
-- that are needed: required, asked for, or a dependency of one that is needed.
pub resolve_dependencies-closure :
    (pids : List String) (r : PackageRegistry) (out : List String)
    → resolve_dependencies pids r ≡ some out
    → IsDistinct out
      × ((k : String)
          → (contains k out ≡ true)
            ↔ ((Dict.get r.packages k ≢ none) × Needs r.packages (roots pids r) k))
unfolding contains
resolve_dependencies-closure pids r out h =
    let d = r.packages in
    let start : Walk = record { seen = []; resolved = [] } in
    let (w, e, same) = resolve_dependencies-walk pids r out h in
    let fuel = 1 + length d in
    let g = Grows-each d (visit d fuel) (Visits-visit d fuel) (roots pids r) start w e in
    let seen_roots = each_seen d (visit d fuel) (Visits-visit d fuel) (roots pids r) start w e in
    let needed =
      each-IsNeeded d (roots pids r) (visit d fuel) (visit-IsNeeded d (roots pids r) fuel)
        (roots pids r) start w (λ j m. root m) e (λ k m. absurd (ground (arith, m))) in
    (
      rw same (g.distinct (λ k m. absurd (ground (arith, m))) tt),
      λ k. (
        λ m.
            let m' : contains k w.resolved ≡ true = rw (sym same) m in
            (g.known k m' refl, needed k (g.within (λ j n. absurd (ground (arith, n))) k m')),
        λ (known, n).
            rw same (g.finishes k (seen-Needs d (roots pids r) w g seen_roots n) refl known),
      ),
    )
