-- ===== src/Rag/Tests.antt =====
-- Three pieces of which two fit into a chunk, with the last of them kept for the next one.
use Prim.Native.Char.{Char, code}
use bmt_ai_os.Prelude.{◌+◌, ◌≡◌, refl, leb, String, Bool, List, [], ◌∷◌, All}
use bmt_ai_os.Rag.Words.{token_len}
use bmt_ai_os.Rag.Chunker.{
  Chunk, join, total, reversed, keep, flush, is_empty, cut, push, merge_piece, merge_pieces,
  merge_splits,
}
use bmt_ai_os.Rag.Chunker.Content.{IsTextAt, merge_splits-IsTextAt}
use bmt_ai_os.Rag.Chunker.Cover.{Covers}

abbrev is_blank : Char → Bool
is_blank ch = leb (code ch) 32

abbrev pieces : List String
pieces = "one two" ∷ "three" ∷ "four five" ∷ []

abbrev texts : List (Chunk String) → List String
texts [] = []
texts (chunk ∷ chunks) = chunk.text ∷ texts chunks

merged :
    texts (merge_splits is_blank pieces 3 1 "a.md" 10 "")
    ≡ "one two\nthree" ∷ "three\nfour five" ∷ []
unfolding merge_splits merge_pieces merge_piece push cut flush is_empty keep reversed total join
    token_len
merged = refl

merge_splits-IsTextAt_example :
    Covers {M = String} 10 (merge_splits is_blank pieces 3 1 "a.md" 10 "") (10 + total pieces)
    × All (IsTextAt {M = String} 10 pieces) (merge_splits is_blank pieces 3 1 "a.md" 10 "")
merge_splits-IsTextAt_example = merge_splits-IsTextAt is_blank pieces 3 1 "a.md" 10 ""
