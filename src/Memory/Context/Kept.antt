-- ===== src/Memory/Context/Kept.antt =====
-- Which messages a context keeps.
use Prim.Native.Char.{Char}
use bmt_ai_os.Prelude.{
  ℕ, zero, suc, ◌+◌, ◌-◌, ◌≤◌, ◌≡◌, inl, inr, refl, sym, ap, ◌∙◌, String, Bool, Bool-cases, Option,
  List, [], ◌∷◌, ◌++◌, length, take, drop, ltb, leb, str_eq, if◌then◌else◌, arith,
}
use bmt_ai_os.Prelude.Lists.{append_nil}
use bmt_ai_os.Prelude.Last.{drop-drop}
use bmt_ai_os.Memory.Context.{
  ChatMessage, ContextEngine, is_system, system_messages, non_system, message_tokens, count_tokens,
  estimate_tokens, summary_text, trim, summary_message, compact, fit, budget_of, build_context,
}

system_messages-append :
    (xs ys : List ChatMessage)
    → system_messages (xs ++ ys) ≡ system_messages xs ++ system_messages ys
unfolding system_messages
system_messages-append [] ys = refl
system_messages-append (m ∷ xs) ys = elim (Bool-cases (is_system m)) [
  | inl k ↦ rw (k, system_messages-append xs ys) refl
  | inr k ↦ rw (k, system_messages-append xs ys) refl
]

non_system-append :
    (xs ys : List ChatMessage) → non_system (xs ++ ys) ≡ non_system xs ++ non_system ys
unfolding non_system
non_system-append [] ys = refl
non_system-append (m ∷ xs) ys = elim (Bool-cases (is_system m)) [
  | inl k ↦ rw (k, non_system-append xs ys) refl
  | inr k ↦ rw (k, non_system-append xs ys) refl
]

-- The system messages are all system messages, and the others have none.
split_again :
    (ms : List ChatMessage)
    → (system_messages (system_messages ms) ≡ system_messages ms)
      × (non_system (system_messages ms) ≡ [])
      × (system_messages (non_system ms) ≡ [])
      × (non_system (non_system ms) ≡ non_system ms)
unfolding system_messages non_system
split_again [] = (refl, refl, refl, refl)
split_again (m ∷ ms) =
    let (a, b, c, d) = split_again ms in
    elim (Bool-cases (is_system m)) [
      | inl k ↦ rw k (rw k (ap (λ l. m ∷ l) a), rw k b, c, d)
      | inr k ↦ rw k (a, b, rw k c, rw k (ap (λ l. m ∷ l) d))
    ]

-- What is dropped of other messages leaves other messages.
split_drop :
    (k : ℕ) (ms : List ChatMessage)
    → (system_messages (drop k (non_system ms)) ≡ [])
      × (non_system (drop k (non_system ms)) ≡ drop k (non_system ms))
unfolding system_messages non_system
split_drop zero ms = let s = split_again ms in (s.2, s.3)
split_drop (suc k) [] = (refl, refl)
split_drop (suc k) (m ∷ ms) = elim (Bool-cases (is_system m)) [
  | inl h ↦ rw h (split_drop (suc k) ms)
  | inr h ↦ rw h (split_drop k ms)
]

drop_all {ℓ} : {A : Type ℓ} (xs : List A) → drop (length xs) xs ≡ []
drop_all [] = refl
drop_all (x ∷ xs) = drop_all xs

module _ (is_space : Char → Bool) where
  trim-drop :
      (budget used total : ℕ) (ms : List ChatMessage)
      → (k : ℕ) × (trim is_space budget used total ms ≡ drop k ms)
  unfolding trim
  trim-drop budget used total [] = (0, refl)
  trim-drop budget used total (m ∷ ms) =
      let ih = trim-drop budget used (total - message_tokens is_space m) ms in
      elim (Bool-cases (ltb budget (total + used))) [
        | inl h ↦ (suc ih.0, rw h ih.1)
        | inr h ↦ (0, rw h refl)
      ]

  -- A summary is one system message at most.
  split_summary :
      (text : String)
      → (length (summary_message is_space text) ≤ 1)
        × (system_messages (summary_message is_space text) ≡ summary_message is_space text)
        × (non_system (summary_message is_space text) ≡ [])
  unfolding summary_message system_messages non_system
  split_summary text = elim (Bool-cases (str_eq text "")) [
    | inl h ↦ rw h (omega arith, refl, refl)
    | inr h ↦ rw h (omega arith, refl, refl)
  ]

  abbrev pub Keeps : List ChatMessage → List ChatMessage → Type 0
  Keeps ms result =
      (k : ℕ) × (extra : List ChatMessage) × (length extra ≤ 1)
      × (non_system result ≡ drop k (non_system ms))
      × (system_messages result ≡ system_messages ms ++ extra)

  Keeps-compact :
      (e : ContextEngine) (ms : List ChatMessage) (budget : ℕ)
      → Keeps ms (system_messages ms ++ compact is_space e (non_system ms) budget)
  unfolding compact
  Keeps-compact e ms budget =
      let others = non_system ms in
      let start = length others - e.recent_turns in
      let text = summary_text is_space e budget (take start others) in
      let used = if str_eq text "" then 0 else estimate_tokens is_space text + 4 in
      let recent = drop start others in
      let (k, cut) = trim-drop budget used (count_tokens is_space recent) recent in
      let (few, sys, none_other) = split_summary text in
      let (a, b, _, _) = split_again ms in
      let (c, d) = split_drop (start + k) ms in
      let extra = summary_message is_space text in
      (
        start + k,
        extra,
        few,
        rw
            (
              cut,
              drop-drop start k others,
              non_system-append (system_messages ms) (extra ++ drop (start + k) others),
              non_system-append extra (drop (start + k) others),
              b,
              none_other,
              d,
            )
            refl,
        rw
            (
              cut,
              drop-drop start k others,
              system_messages-append (system_messages ms) (extra ++ drop (start + k) others),
              system_messages-append extra (drop (start + k) others),
              a,
              sys,
              c,
              append_nil extra,
            )
            refl,
      )

  Keeps-fit :
      (e : ContextEngine) (budget : ℕ) (ms : List ChatMessage) → Keeps ms (fit is_space e budget ms)
  unfolding fit
  Keeps-fit e budget ms =
      let (a, b, _, _) = split_again ms in
      let left = budget - count_tokens is_space (system_messages ms) in
      elim (Bool-cases (leb budget (count_tokens is_space (system_messages ms)))) [
        | inl k ↦ rw k (
          length (non_system ms),
          [],
          omega arith,
          b ∙ sym (drop_all (non_system ms)),
          a ∙ sym (append_nil (system_messages ms)),
        )
        | inr k ↦ elim (Bool-cases (leb (count_tokens is_space (non_system ms)) left)) [
          | inl j ↦ rw (k, j) (0, [], omega arith, refl, sym (append_nil (system_messages ms)))
          | inr j ↦ rw (k, j) (Keeps-compact e ms left)
        ]
      ]

  -- A context holds a last part of the messages that are no system messages, unchanged and in order, and every system
  -- message of the conversation before at most one more.
  pub build_context-Keeps :
      (e : ContextEngine) (max_tokens : Option ℕ) (messages : List ChatMessage)
      → Keeps messages (build_context is_space e max_tokens messages)
  unfolding build_context
  build_context-Keeps e max_tokens [] = (0, [], omega arith, refl, refl)
  build_context-Keeps e max_tokens (m ∷ ms) = Keeps-fit e (budget_of is_space e max_tokens) (m ∷ ms)
