-- ===== src/Rag/Words.antt =====
-- The number of words of a text, `_token_len` of bmt_ai_os/rag/chunker.py. Which characters are white space to
-- `str.split` is a parameter.
use Prim.Native.Char.{Char}
use Prim.Native.String.{String, [], ◌∷◌}
use bmt_ai_os.Prelude.{ℕ, suc, Bool, false, not, ◌&&◌, if◌then◌else◌}

module _ (is_space : Char → Bool) where
  -- The words that begin in the rest of a text, from inside a word or not.
  unfoldable pub words : Bool → String → ℕ
  words inside [] = 0
  words inside (ch ∷ text) =
      let visible = not (is_space ch) in
      let rest = words visible text in if visible && not inside then suc rest else rest

  unfoldable pub token_len : String → ℕ
  unfolding words
  token_len text = words false text
