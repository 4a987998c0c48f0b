-- ===== src/Dlc/Registry/Growth.antt =====
-- What a visit adds to the names seen and resolved.
use bmt_ai_os.Prelude.{
  ℕ, zero, suc, ◌≡◌, ◌≢◌, ◌⊎◌, refl, sym, ◌∙◌, inl, inr, String, true, false, ◌||◌, Bool-cases,
  Option, none, some, Option-cases, List, [], ◌∷◌, ◌++◌, str_eq, str_eq_iff, str_eq_refl, arith,
}
use bmt_ai_os.Prelude.Dict
use bmt_ai_os.Prelude.Dict.{Dict, contains, IsDistinct}
use bmt_ai_os.Dlc.Registry.{ToolPackage, Walk, each, visit}
use bmt_ai_os.Dlc.Registry.Steps.{contains-append, contains-cons, each_rule, visit-cases}

-- What is resolved has been seen.
abbrev pub Within : Walk → Type 0
Within w = (k : String) → contains k w.resolved ≡ true → contains k w.seen ≡ true

IsDistinct-snoc :
    (xs : List String) (x : String)
    → IsDistinct xs
    → contains x xs ≡ false
    → IsDistinct (xs ++ x ∷ [])
unfolding contains
IsDistinct-snoc [] x u h = (refl, tt)
IsDistinct-snoc (y ∷ xs) x u h = (
  ground (arith, u, h, contains-append y xs (x ∷ []), str_eq_iff x y, str_eq_iff y x),
  IsDistinct-snoc xs x u.1 (ground (arith, h)),
)

contains-snoc :
    (k x : String) (xs : List String) → contains k (xs ++ x ∷ []) ≡ (contains k xs || str_eq x k)
unfolding contains
contains-snoc k x [] = ground arith
contains-snoc k x (y ∷ xs) = ground (arith, contains-snoc k x xs)

snoc-cases :
    (k x : String) (xs : List String)
    → contains k (xs ++ x ∷ []) ≡ true
    → (contains k xs ≡ true) ⊎ (x ≡ k)
snoc-cases k x xs h = ground (arith, contains-snoc k x xs, str_eq_iff x k)

cons-cases :
    (k x : String) (xs : List String)
    → contains k (x ∷ xs) ≡ true
    → (contains k xs ≡ true) ⊎ (x ≡ k)
cons-cases k x xs h = ground (arith, contains-cons k x xs, str_eq_iff x k)

-- What is not in the longer list is not in the shorter one, and is another name.
not-cons :
    (k x : String) (xs : List String)
    → contains x xs ≡ false
    → contains k xs ≡ true
    → (contains k (x ∷ xs) ≡ true) × (str_eq x k ≡ false)
not-cons k x xs n h =
    (ground (arith, h, contains-cons k x xs), ground (arith, n, h, str_eq_iff x k))

module _ (d : Dict ToolPackage) where
  pub record Grows (u w : Walk) : Type 0 where
    pub keeps : (k : String) → contains k u.seen ≡ true → contains k w.seen ≡ true
    pub settled :
        (k : String) → contains k u.seen ≡ true → contains k w.resolved ≡ contains k u.resolved
    pub grows : (k : String) → contains k u.resolved ≡ true → contains k w.resolved ≡ true
    pub finishes :
        (k : String)
        → contains k w.seen ≡ true
        → contains k u.seen ≡ false
        → Dict.get d k ≢ none
        → contains k w.resolved ≡ true
    pub closes :
        (k j : String) (p : ToolPackage)
        → contains k w.resolved ≡ true
        → contains k u.resolved ≡ false
        → Dict.get d k ≡ some p
        → contains j p.dependencies ≡ true
        → contains j w.seen ≡ true
    pub known :
        (k : String)
        → contains k w.resolved ≡ true
        → contains k u.resolved ≡ false
        → Dict.get d k ≢ none
    pub within : Within u → Within w
    pub distinct : Within u → IsDistinct u.resolved → IsDistinct w.resolved

  Grows-refl : (w : Walk) → Grows w w
  Grows-refl w = record {
    keeps = λ k h. h;
    settled = λ k h. refl;
    grows = λ k h. h;
    finishes = λ k a b n. absurd (ground (arith, a, b));
    closes = λ k j p a b e m. absurd (ground (arith, a, b));
    known = λ k a b. absurd (ground (arith, a, b));
    within = λ h. h;
    distinct = λ h i. i;
  }

  Grows-trans : (u v w : Walk) → Grows u v → Grows v w → Grows u w
  Grows-trans u v w a b = record {
    keeps = λ k h. b.keeps k (a.keeps k h);
    settled = λ k h. b.settled k (a.keeps k h) ∙ a.settled k h;
    grows = λ k h. b.grows k (a.grows k h);
    finishes = λ k h n m. elim (Bool-cases (contains k v.seen)) [
      | inl s ↦ b.grows k (a.finishes k s n m)
      | inr s ↦ b.finishes k h s m
    ];
    closes = λ k j p h n e m. elim (Bool-cases (contains k v.resolved)) [
      | inl s ↦ b.keeps j (a.closes k j p s n e m)
      | inr s ↦ b.closes k j p h s e m
    ];
    known = λ k h n. elim (Bool-cases (contains k v.resolved)) [
      | inl s ↦ a.known k s n
      | inr s ↦ b.known k h s
    ];
    within = λ h. b.within (a.within h);
    distinct = λ h i. b.distinct (a.within h) (a.distinct h i);
  }

  -- A name that is no package is seen, and that is all.
  Grows-unknown :
      (pid : String) (w : Walk) → Dict.get d pid ≡ none → Grows w (record w { seen = pid ∷ w.seen })
  Grows-unknown pid w e = record {
    keeps = λ k h. ground (arith, h, contains-cons k pid w.seen);
    settled = λ k h. refl;
    grows = λ k h. h;
    finishes = λ k a b n. ground (arith, a, b, n, e, contains-cons k pid w.seen, str_eq_iff pid k);
    closes = λ k j p a b x m. absurd (ground (arith, a, b));
    known = λ k a b. absurd (ground (arith, a, b));
    within = λ h k m. ground (arith, h k m, contains-cons k pid w.seen);
    distinct = λ h i. i;
  }

  -- A package is resolved once its dependencies have been seen.
  Grows-package :
      (pid : String) (p : ToolPackage) (w v : Walk)
      → contains pid w.seen ≡ false
      → Dict.get d pid ≡ some p
      → Grows (record w { seen = pid ∷ w.seen }) v
      → ((j : String) → contains j p.dependencies ≡ true → contains j v.seen ≡ true)
      → Grows w (record v { resolved = v.resolved ++ pid ∷ [] })
  Grows-package pid p w v s e g deps = record {
    keeps = λ k h. g.keeps k (ground (arith, h, contains-cons k pid w.seen));
    settled = λ k h.
        let (seen, other) = not-cons k pid w.seen s h in
        contains-snoc k pid v.resolved ∙ rw (g.settled k seen, other) (ground arith);
    grows = λ k h. rw contains-snoc (rw (g.grows k h) refl);
    finishes = λ k h n m. elim (Bool-cases (str_eq pid k)) [
      | inl same ↦ rw (contains-snoc, same) (ground arith)
      | inr other ↦
          let f = g.finishes k h (rw (contains-cons, other) n) m in rw contains-snoc (rw f refl)
    ];
    closes = λ k j q h n x m. elim (snoc-cases k pid v.resolved h) [
      | inl old ↦ g.closes k j q old n x m
      | inr same ↦ let is_p : p ≡ q = ground (arith, e, x, same) in deps j (rw is_p m)
    ];
    known = λ k h n. elim (snoc-cases k pid v.resolved h) [
      | inl old ↦ g.known k old n
      | inr same ↦ λ x. ground (arith, x, e, same)
    ];
    within = λ h k m. elim (snoc-cases k pid v.resolved m) [
      | inl old ↦ g.within (within_cons h) k old
      | inr same ↦ g.keeps k (rw (contains-cons, same, str_eq_refl k) refl)
    ];
    distinct = λ h i.
        let fresh : contains pid w.resolved ≡ false = ground (arith, h pid, s) in
        let still : contains pid v.resolved ≡ false =
          g.settled pid (rw (contains-cons, str_eq_refl pid) refl) ∙ fresh in
        IsDistinct-snoc v.resolved pid (g.distinct (within_cons h) i) still;
  }
    where
      within_cons : Within w → Within (record w { seen = pid ∷ w.seen })
      within_cons h k m = rw contains-cons (ground (arith, h k m))

  abbrev pub Visits : (String → Walk → Option Walk) → Type 0
  Visits call =
      (pid : String) (w w' : Walk)
      → call pid w ≡ some w'
      → Grows w w' × (contains pid w'.seen ≡ true)

  pub Grows-each :
      (call : String → Walk → Option Walk)
      → Visits call
      → (pids : List String) (w w' : Walk) → each call pids w ≡ some w'
      → Grows w w'
  Grows-each call v = each_rule Grows Grows-refl Grows-trans call (λ pid w w' h. (v pid w w' h).0)

  -- A sequence of visits leaves every name of it seen.
  pub each_seen :
      (call : String → Walk → Option Walk)
      → Visits call
      → (pids : List String) (w w' : Walk) → each call pids w ≡ some w'
      → (j : String) → contains j pids ≡ true
      → contains j w'.seen ≡ true
  unfolding each contains
  each_seen call v [] w w' h j m = absurd (ground (arith, m))
  each_seen call v (pid ∷ pids) w w' h j m = elim (Option-cases (call pid w)) [
    | inl e ↦ absurd (ground (arith, e, h))
    | inr (u, e) ↦
        let rest : each call pids u ≡ some w' = rw (each, e) at h in
        elim (cons-cases j pid pids m) [
          | inl later ↦ each_seen call v pids u w' rest j later
          | inr same ↦ (Grows-each call v pids u w' rest).keeps j (rw (sym same) (v pid w u e).1)
        ]
  ]

  pub Visits-visit : (fuel : ℕ) → Visits (visit d fuel)
  unfolding visit
  Visits-visit zero pid w w' h = absurd (ground (arith, h))
  Visits-visit (suc fuel) pid w w' h = elim (visit-cases d fuel pid w w' h) [
    | inl (s, e) ↦ rw e (Grows-refl w, s)
    | inr (inl (s, g, e)) ↦ rw e (Grows-unknown pid w g, rw (contains-cons, str_eq_refl pid) refl)
    | inr (inr (s, p, v, g, f, e)) ↦
        let deps =
          Grows-each (visit d fuel) (Visits-visit fuel) p.dependencies
            (record w { seen = pid ∷ w.seen }) v f in
        let seen =
          each_seen (visit d fuel) (Visits-visit fuel) p.dependencies
            (record w { seen = pid ∷ w.seen }) v f in
        rw e (
          Grows-package pid p w v s g deps seen,
          deps.keeps pid (rw (contains-cons, str_eq_refl pid) refl),
        )
  ]
