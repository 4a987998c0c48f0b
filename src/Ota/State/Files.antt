-- ===== src/Ota/State/Files.antt =====
-- What is saved is what is loaded.
use bmt_ai_os.Prelude.{ℕ, String, ◌≡◌, refl, Option, ok}
use bmt_ai_os.Prelude.Dict
use bmt_ai_os.Prelude.Dict.{Dict}
use bmt_ai_os.Ota.State.{Json, OtaState, to_dict, from_dict, load, save, update}

module _ (str_of : Json → String) (int_of : String → Option ℕ) where
  -- Every state comes back from the file as it was saved.
  pub load-save : (s : OtaState) → load str_of int_of (save str_of int_of s) ≡ ok s
  unfolding load save from_dict to_dict Dict.get
  load-save s = refl

  -- A method that finds a saved state saves the state that it changes it to.
  pub update-save :
      (f : OtaState → OtaState) (s : OtaState)
      → update str_of int_of f (save str_of int_of s) ≡ ok (save str_of int_of (f s), f s)
  unfolding update
  update-save f s = rw (load-save s)
