-- ===== src/Ota/Version/Order.antt =====
-- That no two versions are each newer than the other.
use Prim.Native.String as Str
use bmt_ai_os.Prelude.{
  ◌≡◌, refl, inl, inr, String, true, false, Bool-cases, Option, Option-cases, List, [], ◌∷◌, str_eq,
  arith,
}
use bmt_ai_os.Prelude.Texts.{ℤ, pos, negsuc, split_on}
use bmt_ai_os.Ota.Version.{int_eq, int_lt, tuple_gt, text_gt, numbers, is_newer, offers}

int_lt_asym : (x y : ℤ) → (int_eq x y ≡ int_eq y x) × (int_lt y x ≡ true → int_lt x y ≡ false)
unfolding int_eq int_lt
int_lt_asym (pos a) (pos b) = (ground arith, λ h. ground (arith, h))
int_lt_asym (pos a) (negsuc b) = (refl, λ h. refl)
int_lt_asym (negsuc a) (pos b) = (refl, λ h. ground (arith, h))
int_lt_asym (negsuc a) (negsuc b) = (ground arith, λ h. ground (arith, h))

tuple_gt_asym : (xs ys : List ℤ) → tuple_gt xs ys ≡ true → tuple_gt ys xs ≡ false
unfolding tuple_gt
tuple_gt_asym [] ys h = absurd (ground (arith, h))
tuple_gt_asym (x ∷ xs) [] h = refl
tuple_gt_asym (x ∷ xs) (y ∷ ys) h =
    let (same, less) = int_lt_asym x y in
    elim (Bool-cases (int_eq x y)) [
      | inl k ↦ let k' : int_eq y x ≡ true = rw same at k in rw k' (tuple_gt_asym xs ys (rw k at h))
      | inr k ↦ let k' : int_eq y x ≡ false = rw same at k in rw k' (less (rw k at h))
    ]

text_gt_asym : (s t : String) → text_gt s t ≡ true → text_gt t s ≡ false
unfolding text_gt
text_gt_asym Str.[] t h = absurd (ground (arith, h))
text_gt_asym (Str.◌∷◌ a s) Str.[] h = refl
text_gt_asym (Str.◌∷◌ a s) (Str.◌∷◌ b t) h = ground (arith, h, text_gt_asym s t)

module _ (to_int : String → Option ℤ) where
  is_newer_asym : (s t : String) → is_newer to_int s t ≡ true → is_newer to_int t s ≡ false
  unfolding is_newer
  is_newer_asym s t h = elim (Option-cases (numbers to_int (split_on 46 s))) [
    | inl k ↦ elim (Option-cases (numbers to_int (split_on 46 t))) [
      | inl j ↦ rw (is_newer, j) (text_gt_asym s t (rw (is_newer, k) at h))
      | inr (ys, j) ↦ rw (is_newer, j, k) (text_gt_asym s t (rw (is_newer, k) at h))
    ]
    | inr (xs, k) ↦ elim (Option-cases (numbers to_int (split_on 46 t))) [
      | inl j ↦ rw (is_newer, j) (text_gt_asym s t (rw (is_newer, k, j) at h))
      | inr (ys, j) ↦ rw (is_newer, j, k) (tuple_gt_asym xs ys (rw (is_newer, k, j) at h))
    ]
  ]

  -- A device that has taken a version offered to it is not offered the version of before, whether the versions are
  -- numbers or any texts; each of them is a text that is not empty.
  pub offers_asym :
      (current version : String)
      → str_eq current "" ≡ false
      → str_eq version "" ≡ false
      → offers to_int current version ≡ true
      → offers to_int version current ≡ false
  unfolding offers
  offers_asym current version a b h =
      let newer : is_newer to_int version current ≡ true = rw a at h in
      rw b (is_newer_asym version current newer)
