-- ===== src/Prelude/Texts.antt =====
-- `int` and `str.split` on texts. What `int` makes of a text is a parameter where it is used.
use Prim.Native.Nat.{ℕ}
use Prim.Native.Char.{Char, code}
use Prim.Native.String as Str
use Prim.Native.String.{String}
use mathlib.Core.List.{List, [], ◌∷◌}
use bmt_ai_os.Prelude.Tests.{◌==◌, if◌then◌else◌}

pub data ℤ : Type 0 where
  pos : ℕ → ℤ
  negsuc : ℕ → ℤ

-- A character before the first part.
push_char : Char → List String → List String
push_char ch [] = Str.◌∷◌ ch "" ∷ []
push_char ch (part ∷ parts) = Str.◌∷◌ ch part ∷ parts

-- `text.split(separator)` for one character, given by its code.
unfoldable pub split_on : ℕ → String → List String
unfolding push_char
split_on separator Str.[] = "" ∷ []
split_on separator (Str.◌∷◌ ch text) =
    let rest = split_on separator text in
    if code ch == separator then "" ∷ rest else push_char ch rest
