-- ===== src/Ota/Version.antt =====
-- The comparison of versions in bmt_ai_os/ota/engine.py. `int` on texts is a parameter.
pub mod Order
use Prim.Native.Char.{code}
use Prim.Native.String as Str
use bmt_ai_os.Prelude.{
  ℕ, String, Bool, true, false, ◌||◌, Option, none, some, List, [], ◌∷◌, ltb, ◌==◌, str_eq,
  if◌then◌else◌,
}
use bmt_ai_os.Prelude.Texts.{ℤ, pos, negsuc, split_on}

int_eq : ℤ → ℤ → Bool
int_eq (pos a) (pos b) = a == b
int_eq (pos a) (negsuc b) = false
int_eq (negsuc a) (pos b) = false
int_eq (negsuc a) (negsuc b) = a == b

int_lt : ℤ → ℤ → Bool
int_lt (pos a) (pos b) = ltb a b
int_lt (pos a) (negsuc b) = false
int_lt (negsuc a) (pos b) = true
int_lt (negsuc a) (negsuc b) = ltb b a

-- `c_parts > r_parts` of tuples
unfoldable pub tuple_gt : List ℤ → List ℤ → Bool
unfolding int_eq int_lt
tuple_gt [] ys = false
tuple_gt (x ∷ xs) [] = true
tuple_gt (x ∷ xs) (y ∷ ys) = let rest = tuple_gt xs ys in if int_eq x y then rest else int_lt y x

-- `candidate > current` of texts
unfoldable pub text_gt : String → String → Bool
text_gt Str.[] current = false
text_gt (Str.◌∷◌ a candidate) Str.[] = true
text_gt (Str.◌∷◌ a candidate) (Str.◌∷◌ b current) =
    let rest = text_gt candidate current in if code a == code b then rest else ltb (code b) (code a)

module _ (to_int : String → Option ℤ) where
  -- `tuple(int(x) for x in parts)`; `none` is a ValueError.
  unfoldable pub numbers : List String → Option (List ℤ)
  numbers [] = some []
  numbers (part ∷ parts) = elim (to_int part) [
    | none ↦ none
    | some n ↦ elim (numbers parts) [ none ↦ none | some ns ↦ some (n ∷ ns) ]
  ]

  unfoldable pub is_newer : String → String → Bool
  unfolding tuple_gt text_gt numbers split_on
  is_newer candidate current = elim (numbers (split_on 46 candidate)) [
    | none ↦ text_gt candidate current
    | some c_parts ↦ elim (numbers (split_on 46 current)) [
      | none ↦ text_gt candidate current
      | some r_parts ↦ tuple_gt c_parts r_parts
    ]
  ]

  -- Whether `check_update` returns a version that the server names, to a device that runs `current`.
  unfoldable pub offers : String → String → Bool
  unfolding is_newer
  offers current version = str_eq current "" || is_newer version current
