-- ===== src/Dlc/Registry/Order.antt =====
-- Dependencies come first.
use bmt_ai_os.Prelude.{
  ℕ, zero, suc, ◌+◌, ◌<◌, ◌≡◌, ◌≢◌, refl, sym, inl, inr, String, true, ◌||◌, Bool-cases, Option,
  none, some, Option-cases, List, [], ◌∷◌, ◌++◌, length, str_eq_iff, str_eq_refl, arith,
}
use bmt_ai_os.Prelude.Dict
use bmt_ai_os.Prelude.Dict.{Dict, contains}
use bmt_ai_os.Dlc.Registry.{ToolPackage, PackageRegistry, Walk, each, visit, resolve_dependencies}
use bmt_ai_os.Dlc.Registry.Steps.{contains-cons, visit-cases}
use bmt_ai_os.Dlc.Registry.Growth.{Grows, Visits-visit, Grows-each, each_seen}
use bmt_ai_os.Dlc.Registry.Closure.{roots, resolve_dependencies-walk}

module _ (d : Dict ToolPackage) where
  -- The dependencies of a name that are packages are in a list.
  abbrev pub Covered : String → List String → Type 0
  Covered k done =
      (p : ToolPackage) (j : String)
      → Dict.get d k ≡ some p
      → contains j p.dependencies ≡ true
      → Dict.get d j ≢ none
      → contains j done ≡ true

  -- Every name of the list comes after its dependencies, or these are in `done`.
  abbrev pub InOrder : List String → List String → Type 0
  InOrder done [] = Unit {0}
  InOrder done (k ∷ ks) = Covered k done × InOrder (k ∷ done) ks

  -- A rank of the names that falls from a package to its dependencies: there is no cycle.
  abbrev pub Falls : (String → ℕ) → Type 0
  Falls rank =
      (k j : String) (p : ToolPackage)
      → Dict.get d k ≡ some p
      → contains j p.dependencies ≡ true
      → rank j < rank k

  InOrder-snoc :
      (done ks : List String) (k : String)
      → InOrder done ks
      → ((j : String) (p : ToolPackage)
          → Dict.get d k ≡ some p
          → contains j p.dependencies ≡ true
          → Dict.get d j ≢ none
          → (contains j done || contains j ks) ≡ true)
      → InOrder done (ks ++ k ∷ [])
  unfolding contains
  InOrder-snoc done [] k o h = (λ p j e m n. ground (arith, h j p e m n), tt)
  InOrder-snoc done (x ∷ ks) k o h =
      (o.0, InOrder-snoc (x ∷ done) ks k o.1 (λ j p e m n. ground (arith, h j p e m n)))

module _ (d : Dict ToolPackage) (rank : String → ℕ) (falls : Falls d rank) where
  -- The packages seen below a rank are resolved.
  abbrev Settled : ℕ → Walk → Type 0
  Settled b w =
      (k : String)
      → contains k w.seen ≡ true
      → Dict.get d k ≢ none
      → rank k < b
      → contains k w.resolved ≡ true

  Settled-Grows : (b : ℕ) (w w' : Walk) → Grows d w w' → Settled b w → Settled b w'
  Settled-Grows b w w' g s k m n lt = elim (Bool-cases (contains k w.seen)) [
    | inl old ↦ g.grows k (s k old n lt)
    | inr new ↦ g.finishes k m new n
  ]

  abbrev KeepsOrder : (String → Walk → Option Walk) → Type 0
  KeepsOrder call =
      (pid : String) (w w' : Walk)
      → call pid w ≡ some w'
      → Settled (rank pid + 1) w
      → InOrder d [] w.resolved
      → InOrder d [] w'.resolved

  each-InOrder :
      (fuel : ℕ)
      → KeepsOrder (visit d fuel)
      → (pids : List String) (w w' : Walk) → each (visit d fuel) pids w ≡ some w'
      → ((j : String) → contains j pids ≡ true → Settled (rank j + 1) w)
      → InOrder d [] w.resolved
      → InOrder d [] w'.resolved
  unfolding each
  each-InOrder fuel c [] w w' h s o = let e : w ≡ w' = ground (arith, h) in rw (sym e) o
  each-InOrder fuel c (pid ∷ pids) w w' h s o = elim (Option-cases (visit d fuel pid w)) [
    | inl e ↦ absurd (ground (arith, e, h))
    | inr (v, e) ↦
        let grown = (Visits-visit d fuel pid w v e).0 in
        each-InOrder fuel c pids v w' (rw (each, e) at h)
          (λ j m. Settled-Grows (rank j + 1) w v grown (s j (rw contains-cons (ground (arith, m)))))
          (c pid w v e (s pid (rw (contains-cons, str_eq_refl pid) refl)) o)
  ]

  visit-InOrder : (fuel : ℕ) → KeepsOrder (visit d fuel)
  unfolding visit
  visit-InOrder zero pid w w' h s o = absurd (ground (arith, h))
  visit-InOrder (suc fuel) pid w w' h s o = elim (visit-cases d fuel pid w w' h) [
    | inl (t, e) ↦ rw e o
    | inr (inl (t, g, e)) ↦ rw e o
    | inr (inr (t, p, v, g, f, e)) ↦
        let start : Walk = record w { seen = pid ∷ w.seen } in
        let s' : Settled (rank pid) start = λ k m n l.
          s k (ground (arith, m, l, contains-cons k pid w.seen, str_eq_iff pid k)) n
            (omega arith) in
        let ordered =
          each-InOrder fuel (visit-InOrder fuel) p.dependencies start v f
            (λ j m k n x l. s' k n x (omega (arith, falls pid j p g m))) o in
        let grown = Grows-each d (visit d fuel) (Visits-visit d fuel) p.dependencies start v f in
        let seen = each_seen d (visit d fuel) (Visits-visit d fuel) p.dependencies start v f in
        let after = Settled-Grows (rank pid) start v grown s' in
        rw e (
          InOrder-snoc d [] v.resolved pid ordered (λ j q x m n.
            let same : p ≡ q = ground (arith, g, x) in
            let m' : contains j p.dependencies ≡ true = rw same m in
            let r = after j (seen j m') n (falls pid j p g m') in unfold contains in r))
  ]

-- Where no package depends on itself through others, every package of the result comes after all of
-- its dependencies that are packages.
pub resolve_dependencies-InOrder :
    (pids : List String) (r : PackageRegistry) (rank : String → ℕ) (out : List String)
    → Falls r.packages rank
    → resolve_dependencies pids r ≡ some out
    → InOrder r.packages [] out
unfolding contains
resolve_dependencies-InOrder pids r rank out falls h =
    let d = r.packages in
    let start : Walk = record { seen = []; resolved = [] } in
    let (w, e, same) = resolve_dependencies-walk pids r out h in
    let fuel = 1 + length d in
    rw same (
      each-InOrder d rank falls fuel (visit-InOrder d rank falls fuel) (roots pids r) start w e
        (λ j m k n x l. absurd (ground (arith, n))) tt)
