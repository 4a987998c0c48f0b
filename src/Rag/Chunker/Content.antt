-- ===== src/Rag/Chunker/Content.antt =====
-- What stands in the chunks of `_merge_splits`: the text at their ranges.
use Prim.Native.Char.{Char}
use mathlib.Core.List.{append_assoc}
use bmt_ai_os.Prelude.{
  ℕ, ◌+◌, ◌-◌, ◌≡◌, refl, sym, ap, ◌∙◌, inl, inr, String, Bool, Bool-cases, not, ◌&&◌, List, [],
  ◌∷◌, ◌++◌, All, All-append, length, ltb, arith,
}
use bmt_ai_os.Rag.Chunker.{
  Chunk, join, total, reversed, keep, Merge, flush, is_empty, cut, push, merge_piece, merge_pieces,
  merge_splits,
}
use bmt_ai_os.Rag.Chunker.Cover.{
  Covers, total-append, total_one, pieces-cases, flush_cursor, merge_splits-Covers,
}
use bmt_ai_os.Rag.Words.{token_len}

-- The chunk is some of the pieces, one after the other, joined with line breaks, and starts where they stand in the
-- text of all pieces, which starts at `first`.
pub record IsTextAt {M : Type 0} (first : ℕ) (pieces : List String) (chunk : Chunk M) : Type 0 where
  before : List String
  own : List String
  after : List String
  place : pieces ≡ before ++ (own ++ after)
  text : chunk.text ≡ join own
  start : chunk.start_char ≡ first + total before

reversed-append : (ps acc : List String) → reversed ps acc ≡ reversed ps [] ++ acc
unfolding reversed
reversed-append [] acc = refl
reversed-append (p ∷ ps) acc =
    reversed-append ps (p ∷ acc)
    ∙ sym (append_assoc (reversed ps []) (p ∷ []) acc)
    ∙ ap (λ l. l ++ acc) (sym (reversed-append ps (p ∷ [])))

reversed-reversed : (ps acc : List String) → reversed (reversed ps acc) [] ≡ reversed acc ps
unfolding reversed
reversed-reversed [] acc = refl
reversed-reversed (p ∷ ps) acc = reversed-reversed ps (p ∷ acc)

-- What is kept are the last of the pieces.
keep_suffix :
    (is_space : Char → Bool) (overlap : ℕ) (ps kept : List String) (tokens : ℕ)
    → (dropped : List String) × (reversed ps kept
        ≡ dropped ++ (keep is_space overlap ps kept tokens).0)
unfolding reversed keep
keep_suffix is_space overlap [] kept tokens = ([], refl)
keep_suffix is_space overlap (p ∷ ps) kept tokens =
    elim (Bool-cases (ltb overlap (tokens + token_len is_space p))) [
      | inl k ↦ rw k (reversed (p ∷ ps) [], reversed-append (p ∷ ps) kept)
      | inr k ↦ rw k (keep_suffix is_space overlap ps (p ∷ kept) (tokens + token_len is_space p))
    ]

module _ {M : Type 0} (first : ℕ) (whole : List String) where
  -- The current pieces stand before those that are to come, and end at the cursor; and the chunks so far have the text
  -- at their ranges.
  record IsRead (rest : List String) (s : Merge M) : Type 0 where
    before : List String
    place : whole ≡ before ++ (s.current_pieces ++ rest)
    cursor : s.char_cursor ≡ first + total before + total s.current_pieces
    exact : All (IsTextAt first whole) s.chunks

  flush-IsTextAt :
      (source : String) (meta : M) (rest : List String) (s : Merge M)
      → IsRead rest s
      → All (IsTextAt first whole) (flush source meta s).chunks
  unfolding flush
  flush-IsTextAt source meta rest s i = elim (pieces-cases s.current_pieces) [
    | inl e ↦ rw (flush, e) i.exact
    | inr (p, ps, e) ↦
        let cursor : s.char_cursor ≡ first + total i.before + total (p ∷ ps) = rw e at i.cursor in
        let place : whole ≡ i.before ++ ((p ∷ ps) ++ rest) = rw e at i.place in
        let chunk : Chunk M = record {
          text = join (p ∷ ps);
          source = source;
          chunk_index = length s.chunks;
          start_char = s.char_cursor - total (p ∷ ps);
          end_char = s.char_cursor;
          metadata = meta;
        } in
        let own : IsTextAt first whole chunk = record {
          before = i.before;
          own = p ∷ ps;
          after = rest;
          place = place;
          text = refl;
          start = omega (arith, cursor);
        } in
        rw (flush, e) (All-append (IsTextAt first whole) s.chunks (chunk ∷ []) i.exact (own, tt))
  ]

  push-IsRead :
      (is_space : Char → Bool) (piece : String) (rest : List String) (s : Merge M)
      → IsRead (piece ∷ rest) s
      → IsRead rest (push is_space piece s)
  unfolding push
  push-IsRead is_space piece rest s i = record {
    before = i.before;
    place =
        i.place ∙ ap (λ l. i.before ++ l) (sym (append_assoc s.current_pieces (piece ∷ []) rest));
    cursor = omega (
      arith,
      i.cursor,
      total-append s.current_pieces (piece ∷ []),
      total_one s.current_pieces piece,
    );
    exact = i.exact;
  }

  cut-IsRead :
      (is_space : Char → Bool) (overlap : ℕ) (source : String) (meta : M) (rest : List String)
      (s : Merge M)
      → IsRead rest s
      → IsRead rest (cut is_space overlap source meta s)
  unfolding cut
  cut-IsRead is_space overlap source meta rest s i =
      let kept = (keep is_space overlap (reversed s.current_pieces []) [] 0).0 in
      let (dropped, suffix) = keep_suffix is_space overlap (reversed s.current_pieces []) [] 0 in
      let parts : s.current_pieces ≡ dropped ++ kept =
        unfold reversed in sym (reversed-reversed s.current_pieces []) ∙ suffix in
      record {
        before = i.before ++ dropped;
        place =
            i.place
            ∙ ap (λ l. i.before ++ (l ++ rest)) parts
            ∙ ap (λ l. i.before ++ l) (append_assoc dropped kept rest)
            ∙ sym (append_assoc i.before dropped (kept ++ rest));
        cursor =
            flush_cursor source meta s
            ∙ omega (
              arith,
              i.cursor,
              ap total parts,
              total-append dropped kept,
              total-append i.before dropped,
            );
        exact = flush-IsTextAt source meta rest s i;
      }

  merge_piece-IsRead :
      (is_space : Char → Bool) (chunk_size overlap : ℕ) (source : String) (meta : M)
      (piece : String) (rest : List String) (s : Merge M)
      → IsRead (piece ∷ rest) s
      → IsRead rest (merge_piece is_space chunk_size overlap source meta piece s)
  unfolding merge_piece
  merge_piece-IsRead is_space chunk_size overlap source meta piece rest s i =
      elim (Bool-cases (
        ltb chunk_size (s.current_tokens + token_len is_space piece)
        && not (is_empty s.current_pieces))) [
          | inl k ↦
              rw (merge_piece, k)
                (push-IsRead is_space piece rest (cut is_space overlap source meta s)
                  (cut-IsRead is_space overlap source meta (piece ∷ rest) s i))
          | inr k ↦ rw (merge_piece, k) (push-IsRead is_space piece rest s i)
        ]

  merge_pieces-IsTextAt :
      (is_space : Char → Bool) (chunk_size overlap : ℕ) (source : String) (meta : M)
      (ps : List String) (s : Merge M)
      → IsRead ps s
      → All
          (IsTextAt first whole)
          (flush source meta (merge_pieces is_space chunk_size overlap source meta ps s)).chunks
  unfolding merge_pieces
  merge_pieces-IsTextAt is_space chunk_size overlap source meta [] s i =
      flush-IsTextAt source meta [] s i
  merge_pieces-IsTextAt is_space chunk_size overlap source meta (p ∷ ps) s i =
      merge_pieces-IsTextAt is_space chunk_size overlap source meta ps
        (merge_piece is_space chunk_size overlap source meta p s)
        (merge_piece-IsRead is_space chunk_size overlap source meta p ps s i)

-- The chunks of any pieces cover the characters of the pieces, each with its line break, from the base offset to the
-- end: they are numbered from 0, none starts before the base offset, each starts no later than the one before ends, and
-- ends later than that. The text of each is what stands at its range without the last line break: pieces that follow
-- one another, joined with line breaks, at the place they have among all pieces.
pub merge_splits-IsTextAt :
    {M : Type 0} (is_space : Char → Bool) (pieces : List String) (chunk_size overlap : ℕ)
    (source : String) (first : ℕ) (meta : M)
    → Covers first
        (merge_splits is_space pieces chunk_size overlap source first meta)
        (first + total pieces)
      × All
          (IsTextAt first pieces)
          (merge_splits is_space pieces chunk_size overlap source first meta)
unfolding merge_splits total
merge_splits-IsTextAt is_space pieces chunk_size overlap source first meta = (
  merge_splits-Covers first is_space pieces chunk_size overlap source meta,
  merge_pieces-IsTextAt first pieces is_space chunk_size overlap source meta pieces
      (record { chunks = []; current_pieces = []; current_tokens = 0; char_cursor = first })
      (record { before = []; place = refl; cursor = omega arith; exact = tt }),
)
