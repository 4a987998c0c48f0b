-- ===== src/Memory/Context/Overrun.antt =====
-- The room that a context needs beside its system messages.
use Prim.Native.Char.{Char}
use bmt_ai_os.Prelude.{
  ℕ, ◌+◌, ◌-◌, ◌≤◌, ◌<◌, ◌≡◌, String, Bool, false, some, List, ◌∷◌, [], length, take, drop, leb,
  arith,
}
use bmt_ai_os.Memory.Context.{
  ChatMessage, ContextEngine, system_messages, non_system, count_tokens, estimate_tokens,
  summary_text, trim, summary_message, compact, fit, build_context,
}
use bmt_ai_os.Memory.Context.Budget.{
  count_tokens-append, count_tokens-summary_message, summary_tokens,
}

module _ (is_space : Char → Bool) where
  -- The summary of what is older than the recent messages.
  abbrev pub older_summary : ContextEngine → List ChatMessage → ℕ → String
  older_summary e ms budget = summary_text is_space e budget (take (length ms - e.recent_turns) ms)

  summary_tokens_of_estimate :
      (text : String) → 0 < estimate_tokens is_space text → 5 ≤ summary_tokens is_space text
  unfolding estimate_tokens
  summary_tokens_of_estimate text h = ground (arith, h)

  compact_of_room :
      (e : ContextEngine) (ms : List ChatMessage) (budget : ℕ)
      → 0 < estimate_tokens is_space (older_summary e ms budget)
      → 5 ≤ count_tokens is_space (compact is_space e ms budget)
  unfolding compact
  compact_of_room e ms budget h =
      let start = length ms - e.recent_turns in
      let text = older_summary e ms budget in
      let recent = drop start ms in
      let kept =
        trim is_space budget (summary_tokens is_space text) (count_tokens is_space recent) recent in
      omega (
        arith,
        count_tokens-append is_space (summary_message is_space text) kept,
        count_tokens-summary_message is_space text,
        summary_tokens_of_estimate text h,
      )

  -- Where the system messages leave from one to four tokens, and the others do not fit into them, a context with a
  -- summary of at least one token costs more than the budget.
  pub build_context_exceeds :
      (e : ContextEngine) (budget : ℕ) (messages : List ChatMessage)
      → count_tokens is_space (system_messages messages) < budget
      → budget < count_tokens is_space (system_messages messages) + 5
      → budget
        < count_tokens is_space (system_messages messages)
          + count_tokens is_space (non_system messages)
      → 0
        < estimate_tokens is_space (
            older_summary e
              (non_system messages)
              (budget - count_tokens is_space (system_messages messages)))
      → budget < count_tokens is_space (build_context is_space e (some budget) messages)
  unfolding build_context fit
  build_context_exceeds e budget [] h k l t =
      absurd (unfold count_tokens system_messages non_system in omega arith)
  build_context_exceeds e budget (m ∷ ms) h k l t =
      let system = system_messages (m ∷ ms) in
      let others = non_system (m ∷ ms) in
      let left = budget - count_tokens is_space system in
      let a : leb budget (count_tokens is_space system) ≡ false = ground arith in
      let b : leb (count_tokens is_space others) left ≡ false = ground arith in
      rw (a, b)
        (omega (
          arith,
          count_tokens-append is_space system (compact is_space e others left),
          compact_of_room e others left t,
        ))
