-- ===== src/Rag/Chunker/Cover.antt =====
-- The chunks of `_merge_splits` cover the pieces from the first character to the last.
use Prim.Native.Char.{Char}
use Prim.Native.String.{count, ◌++◌ as str_append}
use text.Mathlib.TextLemmas.{length-append}
use mathlib.Core.Path.{subst}
use bmt_ai_os.Prelude.{
  ℕ, ◌+◌, ◌-◌, ◌≤◌, ◌<◌, ◌≡◌, ◌⊎◌, refl, sym, ◌∙◌, inl, inr, String, Bool, false, Bool-cases, not,
  ◌&&◌, List, [], ◌∷◌, ◌++◌, length, ltb, arith,
}
use bmt_ai_os.Rag.Chunker.{
  Chunk, join, total, reversed, keep, Merge, flush, is_empty, cut, push, merge_piece, merge_pieces,
  merge_splits,
}
use bmt_ai_os.Rag.Words.{token_len}

-- Chunks from a first position to a last: each has its number in the list, its text and its range agree, and it
-- starts no later than the last one ends, and ends later.
pub data Covers {M : Type 0} (first : ℕ) : List (Chunk M) → ℕ → Type 0 where
  empty : Covers first [] first
  next :
      {chunks : List (Chunk M)} {last : ℕ} (chunk : Chunk M)
      → Covers first chunks last
      → chunk.chunk_index ≡ length chunks
      → first ≤ chunk.start_char
      → chunk.start_char ≤ last
      → last < chunk.end_char
      → chunk.end_char ≡ chunk.start_char + count chunk.text + 1
      → Covers first (chunks ++ chunk ∷ []) chunk.end_char

pub total-append : (ps qs : List String) → total (ps ++ qs) ≡ total ps + total qs
unfolding total
total-append [] qs = omega arith
total-append (p ∷ ps) qs = omega (arith, total-append ps qs)

total-reversed : (ps acc : List String) → total (reversed ps acc) ≡ total ps + total acc
unfolding total reversed
total-reversed [] acc = omega arith
total-reversed (p ∷ ps) acc = omega (arith, total-reversed ps (p ∷ acc))

count-join : (p : String) (ps : List String) → total (p ∷ ps) ≡ count (join (p ∷ ps)) + 1
unfolding total join
count-join p [] = omega arith
count-join p (q ∷ ps) =
    let rest = join (q ∷ ps) in
    omega (arith, count-join q ps, length-append p (str_append "\n" rest), length-append "\n" rest)

keep_le :
    (is_space : Char → Bool) (overlap : ℕ) (ps kept : List String) (tokens : ℕ)
    → total (keep is_space overlap ps kept tokens).0 ≤ total ps + total kept
unfolding total keep
keep_le is_space overlap [] kept tokens = omega arith
keep_le is_space overlap (p ∷ ps) kept tokens =
    ground (arith, keep_le is_space overlap ps (p ∷ kept) (tokens + token_len is_space p))

pub pieces-cases :
    (ps : List String) → (ps ≡ []) ⊎ ((p : String) × (qs : List String) × (ps ≡ p ∷ qs))
pieces-cases [] = inl refl
pieces-cases (p ∷ ps) = inr (p, ps, refl)

pub total_one :
    (ps : List String) (p : String) → total ps + total (p ∷ []) ≡ total ps + (count p + 1)
unfolding total
total_one ps p = omega arith

pub flush_cursor :
    {M : Type 0} (source : String) (meta : M) (s : Merge M)
    → (flush source meta s).char_cursor ≡ s.char_cursor
unfolding flush
flush_cursor source meta s = elim (pieces-cases s.current_pieces) [
  | inl e ↦ rw (flush, e) refl
  | inr (p, ps, e) ↦ rw (flush, e) refl
]

merge_piece_cursor :
    {M : Type 0} (is_space : Char → Bool) (chunk_size overlap : ℕ) (source : String) (meta : M)
    (piece : String) (s : Merge M)
    → (merge_piece is_space chunk_size overlap source meta piece s).char_cursor
      ≡ s.char_cursor + (count piece + 1)
unfolding merge_piece push cut
merge_piece_cursor is_space chunk_size overlap source meta piece s =
    elim (Bool-cases (
      ltb chunk_size (s.current_tokens + token_len is_space piece)
      && not (is_empty s.current_pieces))) [
        | inl k ↦ rw (merge_piece, k, flush_cursor source meta s) refl
        | inr k ↦ rw (merge_piece, k) refl
      ]

module _ {M : Type 0} (first : ℕ) where
  -- The chunks so far end at `last`, and the current pieces go on from there or before it.
  record IsPlaced (s : Merge M) : Type 0 where
    last : ℕ
    covers : Covers first s.chunks last
    starts : first + total s.current_pieces ≤ s.char_cursor
    reaches : s.char_cursor ≤ last + total s.current_pieces
    in_order : last ≤ s.char_cursor

  -- And there is a piece that no chunk has, when there is a current piece.
  record IsMerged (s : Merge M) : Type 0 where
    placed : IsPlaced s
    ahead : is_empty s.current_pieces ≡ false → placed.last < s.char_cursor

  flush-Covers :
      (source : String) (meta : M) (s : Merge M)
      → IsMerged s
      → Covers first (flush source meta s).chunks s.char_cursor
  unfolding flush is_empty total
  flush-Covers source meta s i =
      let p = i.placed in
      elim (pieces-cases s.current_pieces) [
        | inl e ↦
            let same : p.last ≡ s.char_cursor = omega (arith, p.in_order, rw e at p.reaches) in
            rw (flush, e) (rw (sym same) p.covers)
        | inr (piece, ps, e) ↦
            let starts : first + total (piece ∷ ps) ≤ s.char_cursor = rw e at p.starts in
            let reaches : s.char_cursor ≤ p.last + total (piece ∷ ps) = rw e at p.reaches in
            let ahead : p.last < s.char_cursor = i.ahead (rw e refl) in
            rw (flush, e)
              (next
                (record {
                  text = join (piece ∷ ps);
                  source = source;
                  chunk_index = length s.chunks;
                  start_char = s.char_cursor - total (piece ∷ ps);
                  end_char = s.char_cursor;
                  metadata = meta;
                })
                p.covers refl (omega (arith, starts)) (omega (arith, reaches)) ahead
                (omega (arith, starts, count-join piece ps)))
      ]

  push-IsMerged :
      (is_space : Char → Bool) (piece : String) (s : Merge M)
      → IsPlaced s
      → IsMerged (push is_space piece s)
  unfolding push
  push-IsMerged is_space piece s p =
      let added : total (s.current_pieces ++ piece ∷ [])
          ≡ total s.current_pieces + (count piece + 1) =
        total-append s.current_pieces (piece ∷ []) ∙ total_one s.current_pieces piece in
      record {
        placed = record {
          last = p.last;
          covers = p.covers;
          starts = omega (arith, p.starts, added);
          reaches = omega (arith, p.reaches, added);
          in_order = omega (arith, p.in_order);
        };
        ahead = λ h. omega (arith, p.in_order);
      }

  cut-IsPlaced :
      (is_space : Char → Bool) (overlap : ℕ) (source : String) (meta : M) (s : Merge M)
      → IsMerged s
      → IsPlaced (cut is_space overlap source meta s)
  unfolding cut total
  cut-IsPlaced is_space overlap source meta s i =
      let kept = keep_le is_space overlap (reversed s.current_pieces []) [] 0 in
      let cursor = flush_cursor source meta s in
      let all = total-reversed s.current_pieces [] in
      record {
        last = s.char_cursor;
        covers = flush-Covers source meta s i;
        starts = rw cursor (omega (arith, i.placed.starts, kept, all));
        reaches = rw cursor (omega arith);
        in_order = rw cursor (omega arith);
      }

  merge_piece-IsMerged :
      (is_space : Char → Bool) (chunk_size overlap : ℕ) (source : String) (meta : M)
      (piece : String) (s : Merge M)
      → IsMerged s
      → IsMerged (merge_piece is_space chunk_size overlap source meta piece s)
  unfolding merge_piece
  merge_piece-IsMerged is_space chunk_size overlap source meta piece s i =
      elim (Bool-cases (
        ltb chunk_size (s.current_tokens + token_len is_space piece)
        && not (is_empty s.current_pieces))) [
          | inl k ↦
              rw (merge_piece, k)
                (push-IsMerged is_space piece (cut is_space overlap source meta s)
                  (cut-IsPlaced is_space overlap source meta s i))
          | inr k ↦ rw (merge_piece, k) (push-IsMerged is_space piece s i.placed)
        ]

  merge_pieces-Covers :
      (is_space : Char → Bool) (chunk_size overlap : ℕ) (source : String) (meta : M)
      (ps : List String) (s : Merge M)
      → IsMerged s
      → Covers first
          (flush source meta (merge_pieces is_space chunk_size overlap source meta ps s)).chunks
          (s.char_cursor + total ps)
  unfolding merge_pieces total
  merge_pieces-Covers is_space chunk_size overlap source meta [] s i =
      let same : s.char_cursor ≡ s.char_cursor + 0 = omega arith in
      subst (Covers first (flush source meta s).chunks) same (flush-Covers source meta s i)
  merge_pieces-Covers is_space chunk_size overlap source meta (p ∷ ps) s i =
      let s' = merge_piece is_space chunk_size overlap source meta p s in
      let rest =
        merge_pieces-Covers is_space chunk_size overlap source meta ps s'
          (merge_piece-IsMerged is_space chunk_size overlap source meta p s i) in
      let same : s'.char_cursor + total ps ≡ s.char_cursor + (count p + 1 + total ps) =
        omega (arith, merge_piece_cursor is_space chunk_size overlap source meta p s) in
      subst
        (Covers first
          (flush source meta (merge_pieces is_space chunk_size overlap source meta ps s')).chunks)
        same rest

  pub merge_splits-Covers :
      (is_space : Char → Bool) (pieces : List String) (chunk_size overlap : ℕ) (source : String)
      (meta : M)
      → Covers first
          (merge_splits is_space pieces chunk_size overlap source first meta)
          (first + total pieces)
  unfolding merge_splits total is_empty
  merge_splits-Covers is_space pieces chunk_size overlap source meta =
      merge_pieces-Covers is_space chunk_size overlap source meta pieces
        (record { chunks = []; current_pieces = []; current_tokens = 0; char_cursor = first })
        (record {
          placed = record {
            last = first;
            covers = empty;
            starts = omega arith;
            reaches = omega arith;
            in_order = omega arith;
          };
          ahead = λ h. absurd (ground (arith, h));
        })
