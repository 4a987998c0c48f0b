-- ===== src/Memory/Split.antt =====
-- `str.split` and `str.join` on words. Which characters are white space is a parameter.
use Prim.Native.Char.{Char}
use Prim.Native.String as Str
use text.Mathlib.TextLemmas.{cons-append, nil-append, append_assoc, cons≢nil}
use bmt_ai_os.Prelude.{
  ℕ, zero, suc, ◌≤◌, ◌<◌, ◌≡◌, ◌≢◌, refl, ap, inl, inr, String, Bool, true, false, Bool-cases, List,
  [], ◌∷◌, All, length, take, min, str_eq, str_eq_iff, if◌then◌else◌, arith,
}
use bmt_ai_os.Rag.Words.{words, token_len}

length-take {ℓ} : {A : Type ℓ} (k : ℕ) (xs : List A) → length (take k xs) ≡ min k (length xs)
length-take zero xs = omega arith
length-take (suc k) [] = omega arith
length-take (suc k) (x ∷ xs) = omega (arith, length-take k xs)

-- A word before the others, where it is not empty.
push_word : String → List String → List String
push_word w ws = if str_eq w "" then ws else w ∷ ws

-- `" ".join`
unfoldable pub unwords : List String → String
unwords [] = ""
unwords (w ∷ []) = w
unwords (w ∷ v ∷ ws) = Str.◌++◌ w (Str.◌∷◌ " " (unwords (v ∷ ws)))

module _ (is_space : Char → Bool) where
  -- The characters up to the first white space, and the words after it.
  spans : String → String × List String
  unfolding push_word
  spans Str.[] = ("", [])
  spans (Str.◌∷◌ ch text) =
      let (w, ws) = spans text in if is_space ch then ("", push_word w ws) else (Str.◌∷◌ ch w, ws)

  unfoldable pub split : String → List String
  unfolding push_word spans
  split text = let (w, ws) = spans text in push_word w ws

  -- A text without white space.
  abbrev IsSolid : String → Type 0
  IsSolid Str.[] = Unit {0}
  IsSolid (Str.◌∷◌ ch text) = (is_space ch ≡ false) × IsSolid text

  cons-ne-nil : (ch : Char) (w : String) → str_eq (Str.◌∷◌ ch w) "" ≡ false
  cons-ne-nil ch w = elim (Bool-cases (str_eq (Str.◌∷◌ ch w) "")) [
    | inl k ↦ absurd (cons≢nil ((str_eq_iff (Str.◌∷◌ ch w) "").0 k))
    | inr k ↦ k
  ]

  -- Inside a word and outside, the words are counted as they are split.
  words-spans :
      (text : String)
      → (words is_space false text ≡ length (push_word (spans text).0 (spans text).1))
        × (words is_space true text ≡ length (spans text).1)
  unfolding words spans push_word
  words-spans Str.[] = (refl, refl)
  words-spans (Str.◌∷◌ ch text) =
      let ih = words-spans text in
      elim (Bool-cases (is_space ch)) [
        | inl k ↦ rw k (ih.0, ih.0)
        | inr k ↦ rw (k, cons-ne-nil ch (spans text).0) (ap suc ih.1, ih.1)
      ]

  pub token_len-split : (text : String) → token_len is_space text ≡ length (split text)
  unfolding token_len split
  token_len-split text = (words-spans text).0

  push_word-IsSolid :
      (w : String) (ws : List String) → IsSolid w → All IsSolid ws → All IsSolid (push_word w ws)
  unfolding push_word
  push_word-IsSolid w ws h hs = elim (Bool-cases (str_eq w "")) [
    | inl k ↦ rw k hs
    | inr k ↦ rw k (h, hs)
  ]

  spans-IsSolid : (text : String) → IsSolid (spans text).0 × All IsSolid (spans text).1
  unfolding spans push_word
  spans-IsSolid Str.[] = (tt, tt)
  spans-IsSolid (Str.◌∷◌ ch text) =
      let ih = spans-IsSolid text in
      elim (Bool-cases (is_space ch)) [
        | inl k ↦ rw k (tt, push_word-IsSolid (spans text).0 (spans text).1 ih.0 ih.1)
        | inr k ↦ rw k ((k, ih.0), ih.1)
      ]

  split-IsSolid : (text : String) → All IsSolid (split text)
  unfolding split
  split-IsSolid text =
      let s = spans-IsSolid text in push_word-IsSolid (spans text).0 (spans text).1 s.0 s.1

  words_le : (text : String) → words is_space false text ≤ suc (words is_space true text)
  unfolding words
  words_le Str.[] = omega arith
  words_le (Str.◌∷◌ ch text) = ground arith

  -- A solid text counts as one word at most.
  words-append :
      (w rest : String)
      → IsSolid w
      → (words is_space true (Str.◌++◌ w rest) ≡ words is_space true rest)
        × (words is_space false (Str.◌++◌ w rest) ≤ suc (words is_space true rest))
  unfolding words
  words-append Str.[] rest h = rw (nil-append rest) (refl, words_le rest)
  words-append (Str.◌∷◌ ch w) rest h =
      let ih = words-append w rest h.1 in
      rw (cons-append ch w rest, h.0) (ih.0, omega (arith, ih.0))

  -- Words with a text after them that counts as none inside a word.
  pub words-unwords :
      (w : String) (ws : List String) (end : String)
      → is_space " " ≡ true
      → IsSolid w
      → All IsSolid ws
      → words is_space true end ≡ 0
      → words is_space false (Str.◌++◌ (unwords (w ∷ ws)) end) ≤ suc (length ws)
  unfolding words unwords
  words-unwords w [] end sp h hs e = omega (arith, (words-append w end h).1)
  words-unwords w (v ∷ ws) end sp h hs e =
      let more = unwords (v ∷ ws) in
      let rest = Str.◌++◌ more end in
      let ih = words-unwords v ws end sp hs.0 hs.1 e in
      let after : words is_space true (Str.◌++◌ (Str.◌∷◌ " " more) end)
          ≡ words is_space false rest =
        rw (cons-append " " more end, sp) refl in
      rw (append_assoc w (Str.◌∷◌ " " more) end)
        (omega (arith, (words-append w (Str.◌++◌ (Str.◌∷◌ " " more) end) h).1, after, ih))

  All-take : (k : ℕ) (ws : List String) → All IsSolid ws → All IsSolid (take k ws)
  All-take zero ws h = tt
  All-take (suc k) [] h = tt
  All-take (suc k) (w ∷ ws) h = (h.0, All-take k ws h.1)

  unwords_le :
      (ws : List String)
      → is_space " " ≡ true
      → is_space "." ≡ false
      → All IsSolid ws
      → ws ≢ []
      → words is_space false (Str.◌++◌ (unwords ws) "...") ≤ length ws
  unfolding words
  unwords_le [] sp dot h n = absurd (n refl)
  unwords_le (w ∷ ws) sp dot h n = words-unwords w ws "..." sp h.0 h.1 (rw dot refl)

  -- The first words of a text, with dots after the last, are no more words.
  pub token_len-take :
      (k : ℕ) (text : String)
      → is_space " " ≡ true
      → is_space "." ≡ false
      → 0 < k
      → k < length (split text)
      → token_len is_space (Str.◌++◌ (unwords (take k (split text))) "...") ≤ k
  unfolding token_len
  token_len-take k text sp dot pos more =
      let size = length-take k (split text) in
      omega (
        unwords_le (take k (split text)) sp dot (All-take k (split text) (split-IsSolid text))
            (λ e. omega (ap length e, size, pos, more, arith)),
        size,
        arith,
      )
