-- ===== src/Rag/Chunker.antt =====
-- The merging of pieces of text into chunks, `_merge_splits` of bmt_ai_os/rag/chunker.py. Which characters are white
-- space to `str.split` is a parameter.
pub mod Content
pub mod Cover
use Prim.Native.Char.{Char}
use Prim.Native.String.{count, ◌++◌ as str_append}
use bmt_ai_os.Prelude.{
  ℕ, ◌+◌, ◌-◌, String, Bool, true, false, ◌&&◌, not, List, [], ◌∷◌, ◌++◌, length, ltb,
  if◌then◌else◌,
}
use bmt_ai_os.Rag.Words.{token_len}

pub record Chunk (M : Type 0) : Type 0 where
  pub text : String
  pub source : String
  pub chunk_index : ℕ
  pub start_char : ℕ
  pub end_char : ℕ
  pub metadata : M

pub record Merge (M : Type 0) : Type 0 where
  pub chunks : List (Chunk M)
  pub current_pieces : List String
  pub current_tokens : ℕ
  pub char_cursor : ℕ

-- The pieces that `"\n".join` is given, as they stand in one text.
unfoldable pub join : List String → String
join [] = ""
join (p ∷ []) = p
join (p ∷ q ∷ ps) = str_append p (str_append "\n" (join (q ∷ ps)))

-- `sum(len(p) + 1 for p in current_pieces)`
unfoldable pub total : List String → ℕ
total [] = 0
total (p ∷ ps) = count p + 1 + total ps

unfoldable pub reversed : List String → List String → List String
reversed [] acc = acc
reversed (p ∷ ps) acc = reversed ps (p ∷ acc)

unfoldable pub is_empty : List String → Bool
is_empty [] = true
is_empty (p ∷ ps) = false

module _ {M : Type 0} where
  -- `_flush`
  unfoldable pub flush : String → M → Merge M → Merge M
  flush source meta s = elim s.current_pieces [
    | [] ↦ s
    | p ∷ ps ↦ record s {
      chunks =
          s.chunks
          ++ record {
            text = join (p ∷ ps);
            source = source;
            chunk_index = length s.chunks;
            start_char = s.char_cursor - total (p ∷ ps);
            end_char = s.char_cursor;
            metadata = meta;
          }
            ∷ [];
    }
  ]

module _ (is_space : Char → Bool) where
  -- The loop over the reversed pieces that keeps the last of them, with their tokens.
  unfoldable pub keep : ℕ → List String → List String → ℕ → List String × ℕ
  keep overlap [] kept tokens = (kept, tokens)
  keep overlap (p ∷ ps) kept tokens =
      let pt = token_len is_space p in
      let rest = keep overlap ps (p ∷ kept) (tokens + pt) in
      if ltb overlap (tokens + pt) then (kept, tokens) else rest

  module _ {M : Type 0} where
    unfoldable pub cut : ℕ → String → M → Merge M → Merge M
    cut overlap source meta s =
        let (pieces, tokens) = keep overlap (reversed s.current_pieces []) [] 0 in
        record (flush source meta s) { current_pieces = pieces; current_tokens = tokens }

    unfoldable pub push : String → Merge M → Merge M
    push piece s = record s {
      current_pieces = s.current_pieces ++ piece ∷ [];
      current_tokens = s.current_tokens + token_len is_space piece;
      char_cursor = s.char_cursor + (count piece + 1);
    }

    -- One round of the loop over the pieces.
    unfoldable pub merge_piece : ℕ → ℕ → String → M → String → Merge M → Merge M
    unfolding cut push
    merge_piece chunk_size overlap source meta piece s =
        if ltb chunk_size (s.current_tokens + token_len is_space piece)
          && not (is_empty s.current_pieces)
        then push piece (cut overlap source meta s)
        else push piece s

    unfoldable pub merge_pieces : ℕ → ℕ → String → M → List String → Merge M → Merge M
    unfolding merge_piece
    merge_pieces chunk_size overlap source meta [] s = s
    merge_pieces chunk_size overlap source meta (p ∷ ps) s =
        merge_pieces chunk_size overlap source meta ps
          (merge_piece chunk_size overlap source meta p s)

    -- `_merge_splits`; `meta` is the copy of `extra_meta`.
    unfoldable pub merge_splits : List String → ℕ → ℕ → String → ℕ → M → List (Chunk M)
    unfolding merge_pieces flush
    merge_splits pieces chunk_size overlap source base_offset meta =
        (flush source meta (
          merge_pieces chunk_size overlap source meta pieces (record {
            chunks = [];
            current_pieces = [];
            current_tokens = 0;
            char_cursor = base_offset;
          }))).chunks
