-- ===== src/Dlc/Registry/Steps.antt =====
-- What a call of `_resolve` does to the names seen and resolved.
use bmt_ai_os.Prelude.{
  ℕ, suc, ◌≡◌, ◌⊎◌, refl, sym, inl, inr, String, true, false, ◌||◌, Bool-cases, Option, none, some,
  Option-cases, List, [], ◌∷◌, ◌++◌, str_eq, arith,
}
use bmt_ai_os.Prelude.Dict
use bmt_ai_os.Prelude.Dict.{Dict, contains, IsDistinct}
use bmt_ai_os.Dlc.Registry.{ToolPackage, Walk, each, visit}

pub contains-append :
    (k : String) (xs ys : List String) → contains k (xs ++ ys) ≡ (contains k xs || contains k ys)
unfolding contains
contains-append k [] ys = refl
contains-append k (x ∷ xs) ys = ground (arith, contains-append k xs ys)

pub contains-cons :
    (k x : String) (xs : List String) → contains k (x ∷ xs) ≡ (str_eq x k || contains k xs)
unfolding contains
contains-cons k x xs = refl

-- A relation of states that every visit establishes holds over a sequence of them.
pub each_rule {ℓ} :
    (R : Walk → Walk → Type ℓ)
    → ((w : Walk) → R w w)
    → ((u v w : Walk) → R u v → R v w → R u w)
    → (call : String → Walk → Option Walk)
    → ((pid : String) (w w' : Walk) → call pid w ≡ some w' → R w w')
    → (pids : List String) (w w' : Walk) → each call pids w ≡ some w'
    → R w w'
unfolding each
each_rule R same then_ call one [] w w' h =
    let e : w ≡ w' = ground (arith, h) in rw (sym e) (same w)
each_rule R same then_ call one (pid ∷ pids) w w' h = elim (Option-cases (call pid w)) [
  | inl e ↦ absurd (ground (arith, e, h))
  | inr (v, e) ↦
      then_ w v w' (one pid w v e) (each_rule R same then_ call one pids v w' (rw (each, e) at h))
]

module _ (d : Dict ToolPackage) where
  -- A visit runs in one of three ways.
  pub visit-cases :
      (fuel : ℕ) (pid : String) (w w' : Walk)
      → visit d (suc fuel) pid w ≡ some w'
      → ((contains pid w.seen ≡ true) × (w' ≡ w))
        ⊎ ((contains pid w.seen ≡ false)
            × (Dict.get d pid ≡ none)
            × (w' ≡ record w { seen = pid ∷ w.seen }))
        ⊎ ((contains pid w.seen ≡ false)
            × (p : ToolPackage) × (v : Walk) × (Dict.get d pid ≡ some p)
            × (each (visit d fuel) p.dependencies (record w { seen = pid ∷ w.seen }) ≡ some v)
            × (w' ≡ record v { resolved = v.resolved ++ pid ∷ [] }))
  unfolding visit
  visit-cases fuel pid w w' h = elim (Bool-cases (contains pid w.seen)) [
    | inl s ↦ inl (s, ground (arith, rw (visit, s) at h))
    | inr s ↦ elim (Option-cases (Dict.get d pid)) [
      | inl e ↦ inr (inl (s, e, ground (arith, rw (visit, s, e) at h)))
      | inr (p, e) ↦
          elim (Option-cases
            (each (visit d fuel) p.dependencies (record w { seen = pid ∷ w.seen }))) [
              | inl f ↦ absurd (ground (arith, rw (visit, s, e, f) at h))
              | inr (v, f) ↦ inr (inr (s, p, v, e, f, ground (arith, rw (visit, s, e, f) at h)))
            ]
    ]
  ]
