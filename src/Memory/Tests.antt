-- ===== src/Memory/Tests.antt =====
-- Conversations with a budget of tokens.
use Prim.Native.Char.{Char, code}
use bmt_ai_os.Prelude.{
  ◌≡◌, ◌≤◌, ◌<◌, inl, refl, String, Bool, none, some, List, [], ◌∷◌, length, leb, arith,
}
use bmt_ai_os.Rag.Words.{token_len}
use bmt_ai_os.Memory.Context.{
  ChatMessage, ContextEngine, new, summarise_messages, system_messages, non_system, summary_text,
  count_tokens, budget_of, build_context,
}
use bmt_ai_os.Memory.Context.Budget.{build_context-fits}
use bmt_ai_os.Memory.Context.Kept.{Keeps, build_context-Keeps}
use bmt_ai_os.Memory.Context.Overrun.{build_context_exceeds}

abbrev is_space : Char → Bool
is_space ch = leb (code ch) 32

abbrev upper : String → String
upper role = role

abbrev said : String → String → ChatMessage
said role content = record { role = role; content = content }

abbrev chat : List ChatMessage
chat =
    said "system" "be brief"
    ∷ said "user" "what is the weather like today"
    ∷ said "assistant" "it is sunny"
    ∷ said "user" "and tomorrow"
    ∷ []

-- The engine with the summary that is built in, for one recent message.
abbrev engine : ContextEngine
engine = record { budget = 210; recent_turns = 1; summariser = λ ms. summarise_messages upper ms }

engine-new : new 210 1 none upper ≡ some engine
unfolding new
engine-new = refl

small-new : new 209 1 none upper ≡ none
unfolding new
small-new = refl

chat-tokens : count_tokens is_space chat ≡ 34
unfolding count_tokens token_len
chat-tokens = refl

chat-build_context : length (build_context is_space engine (some 20) chat) ≡ 3
unfolding build_context system_messages non_system token_len summary_text summarise_messages
chat-build_context = refl

build_context-fits_example :
    count_tokens is_space (build_context is_space engine (some 20) chat)
    ≤ budget_of is_space engine (some 20)
unfolding count_tokens system_messages budget_of token_len
build_context-fits_example =
    build_context-fits is_space engine (some 20) chat refl refl (omega arith) (inl (omega arith))

build_context-Keeps_example : Keeps is_space chat (build_context is_space engine (some 20) chat)
build_context-Keeps_example = build_context-Keeps is_space engine (some 20) chat

build_context_exceeds_example :
    10 < count_tokens is_space (build_context is_space engine (some 10) chat)
unfolding count_tokens system_messages non_system token_len summary_text summarise_messages
build_context_exceeds_example =
    build_context_exceeds is_space engine 10 chat (omega arith) (omega arith) (omega arith)
      (omega arith)
