-- ===== src/Memory/Context/Budget.antt =====
-- What a context costs, against the budget.
use Prim.Native.Char.{Char}
use Prim.Native.String as Str
use bmt_ai_os.Prelude.{
  ℕ, ◌+◌, ◌-◌, ◌*◌, ◌/◌, ◌≤◌, ◌<◌, ◌≡◌, ◌≢◌, ◌⊎◌, inl, inr, refl, ap, min, max, String, Bool, true,
  false, Bool-cases, Option, List, [], ◌∷◌, ◌++◌, length, take, drop, ltb, leb, ltb→lt, str_eq,
  if◌then◌else◌, arith,
}
use bmt_ai_os.Rag.Words.{token_len}
use bmt_ai_os.Memory.Split.{split, unwords, token_len-split, token_len-take}
use bmt_ai_os.Memory.Context.{
  ChatMessage, round_ratio, ContextEngine, system_messages, non_system, estimate_tokens,
  message_tokens, count_tokens, summary_token_reserve, summary_text, trim, summary_message, compact,
  fit, budget_of, build_context,
}

round_ratio_le : (words : ℕ) → 10 * round_ratio words ≤ 13 * words + 5
unfolding round_ratio
round_ratio_le words = ground arith

module _ (is_space : Char → Bool) where
  estimate_tokens_le :
      (text : String) → 10 * estimate_tokens is_space text ≤ 13 * token_len is_space text + 5
  unfolding estimate_tokens
  estimate_tokens_le text = ground (arith, round_ratio_le (token_len is_space text))

  pub count_tokens-append :
      (xs ys : List ChatMessage)
      → count_tokens is_space (xs ++ ys) ≡ count_tokens is_space xs + count_tokens is_space ys
  unfolding count_tokens
  count_tokens-append [] ys = omega arith
  count_tokens-append (m ∷ xs) ys = omega (arith, count_tokens-append xs ys)

  -- Either the recent messages that are left fit with the summary, or none is left.
  trim_fits :
      (budget used total : ℕ) (ms : List ChatMessage)
      → count_tokens is_space ms ≡ total
      → (count_tokens is_space (trim is_space budget used total ms) + used ≤ budget)
        ⊎ (trim is_space budget used total ms ≡ [])
  unfolding trim count_tokens
  trim_fits budget used total [] h = inr refl
  trim_fits budget used total (m ∷ ms) h =
      let ih = trim_fits budget used (total - message_tokens is_space m) ms (omega (arith, h)) in
      elim (Bool-cases (ltb budget (total + used))) [
        | inl k ↦ rw k ih
        | inr k ↦ rw k (inl (ground (arith, h, k)))
      ]

  -- The words that a summary is cut to cost no more than its slot, or five tokens.
  slot_fits :
      (slot words : ℕ) (text : String)
      → words ≤ max 1 (10 * slot / 13 - 4)
      → token_len is_space text ≤ words
      → estimate_tokens is_space text + 4 ≤ max 5 slot
  slot_fits slot words text h k = omega (arith, h, k, estimate_tokens_le text)

  summary_text_fits :
      (e : ContextEngine) (budget : ℕ) (older : List ChatMessage)
      → is_space " " ≡ true
      → is_space "." ≡ false
      → older ≢ []
      → estimate_tokens is_space (summary_text is_space e budget older) + 4 ≤ max 5 budget
  unfolding summary_text
  summary_text_fits e budget [] sp dot n = absurd (n refl)
  summary_text_fits e budget (m ∷ ms) sp dot n =
      let raw = e.summariser (m ∷ ms) in
      let slot = min summary_token_reserve (budget / 3) in
      let most = max 1 (10 * slot / 13 - 4) in
      let pos : 0 < most = omega arith in
      elim (Bool-cases (ltb most (length (split is_space raw)))) [
        | inl k ↦
            let cut = Str.◌++◌ (unwords (take most (split is_space raw))) "..." in
            let few =
              token_len-take is_space most raw sp dot pos
                (ltb→lt most (length (split is_space raw)) k) in
            rw k (omega (arith, slot_fits slot most cut (omega arith) few))
        | inr k ↦
            let few : token_len is_space raw ≤ most =
              ground (arith, k, token_len-split is_space raw) in
            rw k (omega (arith, slot_fits slot most raw (omega arith) few))
      ]

  -- The tokens that `_compact` takes off the budget for its summary.
  abbrev pub summary_tokens : String → ℕ
  summary_tokens text = if str_eq text "" then 0 else estimate_tokens is_space text + 4

  pub count_tokens-summary_message :
      (text : String) → count_tokens is_space (summary_message is_space text) ≡ summary_tokens text
  unfolding count_tokens summary_message message_tokens
  count_tokens-summary_message text = ground arith

  older_fits :
      (e : ContextEngine) (budget : ℕ) (older : List ChatMessage)
      → is_space " " ≡ true
      → is_space "." ≡ false
      → (5 ≤ budget) ⊎ (older ≡ [])
      → summary_tokens (summary_text is_space e budget older) ≤ budget
  unfolding summary_text
  older_fits e budget [] sp dot room = omega arith
  older_fits e budget (m ∷ ms) sp dot (inr n) = absurd (ground (arith, n))
  older_fits e budget (m ∷ ms) sp dot (inl room) =
      let fits = summary_text_fits e budget (m ∷ ms) sp dot (λ x. ground (arith, x)) in
      elim (Bool-cases (str_eq (summary_text is_space e budget (m ∷ ms)) "")) [
        | inl k ↦ rw k (omega arith)
        | inr k ↦ rw k (omega (arith, fits, room))
      ]

  take_none : (start : ℕ) (ms : List ChatMessage) → start ≡ 0 → take start ms ≡ []
  take_none start ms z = rw z refl

  count_tokens-compact :
      (e : ContextEngine) (messages : List ChatMessage) (budget : ℕ)
      → is_space " " ≡ true
      → is_space "." ≡ false
      → (5 ≤ budget) ⊎ (length messages ≤ e.recent_turns)
      → count_tokens is_space (compact is_space e messages budget) ≤ budget
  unfolding compact
  count_tokens-compact e messages budget sp dot room =
      let start = length messages - e.recent_turns in
      let recent = drop start messages in
      let text = summary_text is_space e budget (take start messages) in
      let kept = trim is_space budget (summary_tokens text) (count_tokens is_space recent) recent in
      let sum = count_tokens-append (summary_message is_space text) kept in
      let used = count_tokens-summary_message text in
      elim (trim_fits budget (summary_tokens text) (count_tokens is_space recent) recent refl) [
        | inl fits ↦ omega (arith, sum, used, fits)
        | inr none_left ↦
            let u : summary_tokens text ≤ budget =
              older_fits e budget (take start messages) sp dot (elim room [
                | inl five ↦ inl five
                | inr short ↦ inr (take_none start messages (omega (arith, short)))
              ]) in
            omega (arith, sum, used, u, ap (count_tokens is_space) none_left)
      ]

  count_tokens-split :
      (ms : List ChatMessage)
      → count_tokens is_space ms
        ≡ count_tokens is_space (system_messages ms) + count_tokens is_space (non_system ms)
  unfolding count_tokens system_messages non_system
  count_tokens-split [] = omega arith
  count_tokens-split (m ∷ ms) = ground (arith, count_tokens-split ms)

  fit_fits :
      (e : ContextEngine) (messages : List ChatMessage) (budget : ℕ)
      → is_space " " ≡ true
      → is_space "." ≡ false
      → count_tokens is_space (system_messages messages) ≤ budget
      → (count_tokens is_space (system_messages messages) + 5 ≤ budget)
        ⊎ (length (non_system messages) ≤ e.recent_turns)
      → count_tokens is_space (fit is_space e budget messages) ≤ budget
  unfolding fit
  fit_fits e messages budget sp dot h room =
      let system = system_messages messages in
      let left = budget - count_tokens is_space system in
      elim (Bool-cases (leb budget (count_tokens is_space system))) [
        | inl k ↦ rw k h
        | inr k ↦ elim (Bool-cases (leb (count_tokens is_space (non_system messages)) left)) [
          | inl j ↦ rw (k, j) (ground (arith, k, j, count_tokens-split messages))
          | inr j ↦
              let room' : (5 ≤ left) ⊎ (length (non_system messages) ≤ e.recent_turns) = elim room [
                | inl five ↦ inl (omega (arith, five))
                | inr short ↦ inr short
              ] in
              rw (k, j)
                (ground (
                  arith,
                  k,
                  count_tokens-append system (compact is_space e (non_system messages) left),
                  count_tokens-compact e (non_system messages) left sp dot room',
                ))
        ]
      ]

  -- A context costs no more than the budget, where what the system messages leave of it is at least five tokens, or
  -- it is not exceeded by them and there are no more other messages than the recent ones that are kept. The summary
  -- may be any; a space is white space and a dot is none.
  pub build_context-fits :
      (e : ContextEngine) (max_tokens : Option ℕ) (messages : List ChatMessage)
      → is_space " " ≡ true
      → is_space "." ≡ false
      → count_tokens is_space (system_messages messages) ≤ budget_of is_space e max_tokens
      → (count_tokens is_space (system_messages messages) + 5 ≤ budget_of is_space e max_tokens)
        ⊎ (length (non_system messages) ≤ e.recent_turns)
      → count_tokens is_space (build_context is_space e max_tokens messages)
        ≤ budget_of is_space e max_tokens
  unfolding build_context
  build_context-fits e max_tokens [] sp dot h room = unfold count_tokens in omega arith
  build_context-fits e max_tokens (m ∷ ms) sp dot h room =
      fit_fits e (m ∷ ms) (budget_of is_space e max_tokens) sp dot h room
