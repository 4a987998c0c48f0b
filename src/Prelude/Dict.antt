-- ===== src/Prelude/Dict.antt =====
-- Python's `dict` with string keys. The order of insertion is kept: a new key goes to the end, and
-- a write to an old key stays at its place.
use Prim.Native.String.{String}
use mathlib.Core.Path.{◌≡◌, refl}
use mathlib.Core.Bool.{Bool, true, false, ◌||◌}
use mathlib.Core.Logic.{◌≢◌}
use mathlib.Core.Option.{Option, none, some}
use mathlib.Core.List.{List, [], ◌∷◌, ◌++◌}
use native.Mathlib.Omega.{arith}
use text.Mathlib.Text.{◌==◌}
use text.Mathlib.TextEquality.{eq_iff}
use bmt_ai_os.Prelude.Tests.{if◌then◌else◌}

abbrev pub Dict {ℓ} : Type ℓ → Type ℓ
Dict V = List (String × V)

-- `k in xs` for a list of texts.
unfoldable pub contains : String → List String → Bool
contains k [] = false
contains k (j ∷ js) = j == k || contains k js

-- No name stands twice in the list.
abbrev pub IsDistinct : List String → Type 0
IsDistinct [] = Unit
IsDistinct (x ∷ xs) = (contains x xs ≡ false) × IsDistinct xs

module _ {ℓ} {V : Type ℓ} where
  -- d.get(k)
  unfoldable pub get : Dict V → String → Option V
  get [] k = none
  get ((j, v) ∷ d) k = if j == k then some v else get d k

  -- d[k] = v
  unfoldable pub put : Dict V → String → V → Dict V
  put [] k v = (k, v) ∷ []
  put ((j, w) ∷ d) k v = if j == k then (j, v) ∷ d else (j, w) ∷ put d k v

  -- d.pop(k, None)
  unfoldable pub pop : Dict V → String → Dict V
  pop [] k = []
  pop ((j, v) ∷ d) k = let rest = pop d k in if j == k then rest else (j, v) ∷ rest

  -- list(d)
  unfoldable pub keys : Dict V → List String
  keys [] = []
  keys ((j, v) ∷ d) = j ∷ keys d

  pub get-put :
      (d : Dict V) (k j : String) (v : V) → get (put d k v) j ≡ (if k == j then some v else get d j)
  unfolding get put
  get-put [] k j v = refl
  get-put ((i, w) ∷ d) k j v = ground (arith, eq_iff k j, eq_iff i k, eq_iff i j, get-put d k j v)

  pub get-pop : (d : Dict V) (k j : String) → get (pop d k) j ≡ (if k == j then none else get d j)
  unfolding get pop
  get-pop [] k j = ground arith
  get-pop ((i, w) ∷ d) k j = ground (arith, eq_iff k j, eq_iff i k, eq_iff i j, get-pop d k j)

  -- A key is listed exactly when it has a value.
  pub contains-keys :
      (d : Dict V) (k : String)
      → contains k (keys d) ≡ elim (get d k) [ none ↦ false | some v ↦ true ]
  unfolding get keys contains
  contains-keys [] k = refl
  contains-keys ((i, w) ∷ d) k = ground (arith, contains-keys d k)

  -- A new key goes to the end of the list of keys.
  pub keys-put :
      (d : Dict V) (k : String) (v : V)
      → keys (put d k v) ≡ (if contains k (keys d) then keys d else keys d ++ k ∷ [])
  unfolding keys put contains
  keys-put [] k v = refl
  keys-put ((i, w) ∷ d) k v = ground (arith, eq_iff i k, keys-put d k v)

  pub get-ne-none_of_contains :
      (d : Dict V) (k : String) → contains k (keys d) ≡ true → get d k ≢ none
  get-ne-none_of_contains d k h e = ground (arith, contains-keys d k)

  pub contains_of_get-ne-none :
      (d : Dict V) (k : String) → get d k ≢ none → contains k (keys d) ≡ true
  contains_of_get-ne-none d k h = ground (arith, contains-keys d k)
