-- ===== src/Memory/Context.antt =====
-- ContextEngine of bmt_ai_os/memory/context.py: the messages of a conversation that fit into a budget of tokens. Which
-- characters are white space, and `str.upper`, are parameters; the products with 1.3 and their roundings are exact.
pub mod Budget
pub mod Kept
pub mod Overrun
use Prim.Native.Char.{Char, code}
use Prim.Native.String as Str
use bmt_ai_os.Prelude.{
  ℕ, zero, suc, ◌+◌, ◌-◌, ◌*◌, ◌/◌, ◌%◌, min, max, String, Bool, true, false, not, Option, none,
  some, List, [], ◌∷◌, ◌++◌, map, length, take, drop, ltb, leb, ◌==◌, str_eq, if◌then◌else◌,
}
use bmt_ai_os.Rag.Words.{token_len}
use bmt_ai_os.Memory.Split.{split, unwords}

abbrev pub summary_token_reserve : ℕ
summary_token_reserve = 200

pub record ChatMessage : Type 0 where
  pub role : String
  pub content : String

-- `round(words * 1.3)`: to the nearest, and from the middle to the even number.
unfoldable pub round_ratio : ℕ → ℕ
round_ratio words =
    let q = 13 * words / 10 in
    let r = 13 * words % 10 in if ltb r 5 then q else if ltb 5 r then q + 1 else q + q % 2

-- `text[:n]`
take_text : ℕ → String → String
take_text zero text = ""
take_text (suc n) Str.[] = ""
take_text (suc n) (Str.◌∷◌ ch text) = Str.◌∷◌ ch (take_text n text)

-- `text.replace("\n", " ")`
one_line : String → String
one_line Str.[] = ""
one_line (Str.◌∷◌ ch text) =
    let rest = one_line text in if code ch == 10 then Str.◌∷◌ " " rest else Str.◌∷◌ ch rest

lines : List String → String
lines [] = ""
lines (l ∷ []) = l
lines (l ∷ k ∷ ls) = Str.◌++◌ l (Str.◌∷◌ "\n" (lines (k ∷ ls)))

summary_line : (String → String) → ChatMessage → String
unfolding take_text one_line
summary_line upper m =
    let snippet = one_line (take_text 200 m.content) in
    let shown = if ltb 200 (Str.count m.content) then Str.◌++◌ snippet "..." else snippet in
    Str.◌++◌ (upper m.role) (Str.◌++◌ ": " shown)

-- `_summarise_messages`
unfoldable pub summarise_messages : (String → String) → List ChatMessage → String
unfolding summary_line lines
summarise_messages upper [] = ""
summarise_messages upper (m ∷ ms) =
    lines ("[Conversation summary]" ∷ map (summary_line upper) (m ∷ ms))

pub record ContextEngine : Type 0 where
  pub budget : ℕ
  pub recent_turns : ℕ
  pub summariser : List ChatMessage → String

-- `__init__`; `none` is the ValueError.
unfoldable pub new :
    ℕ → ℕ → Option (List ChatMessage → String) → (String → String) → Option ContextEngine
unfolding summarise_messages
new token_budget recent_turns given upper =
    if ltb token_budget (summary_token_reserve + 10)
    then none
    else some (record {
      budget = token_budget;
      recent_turns = recent_turns;
      summariser = elim given [ none ↦ summarise_messages upper | some f ↦ f ];
    })

unfoldable pub is_system : ChatMessage → Bool
is_system m = str_eq m.role "system"

unfoldable pub system_messages : List ChatMessage → List ChatMessage
unfolding is_system
system_messages [] = []
system_messages (m ∷ ms) = let rest = system_messages ms in if is_system m then m ∷ rest else rest

unfoldable pub non_system : List ChatMessage → List ChatMessage
unfolding is_system
non_system [] = []
non_system (m ∷ ms) = let rest = non_system ms in if is_system m then rest else m ∷ rest

module _ (is_space : Char → Bool) where
  unfoldable pub estimate_tokens : String → ℕ
  unfolding round_ratio
  estimate_tokens text =
      if str_eq text ""
      then 0
      else (let words = token_len is_space text in
          if words == 0 then 0 else max 1 (round_ratio words))

  unfoldable pub message_tokens : ChatMessage → ℕ
  unfolding estimate_tokens
  message_tokens m = estimate_tokens m.content + 4

  unfoldable pub count_tokens : List ChatMessage → ℕ
  unfolding message_tokens
  count_tokens [] = 0
  count_tokens (m ∷ ms) = message_tokens m + count_tokens ms

  -- The summary of the older messages, cut to the words that its slot of the budget has.
  unfoldable pub summary_text : ContextEngine → ℕ → List ChatMessage → String
  unfolding split unwords
  summary_text e budget [] = ""
  summary_text e budget (m ∷ ms) =
      let summary_slot = min summary_token_reserve (budget / 3) in
      let raw_summary = e.summariser (m ∷ ms) in
      let words = split is_space raw_summary in
      let max_words = max 1 (10 * summary_slot / 13 - 4) in
      if ltb max_words (length words)
      then Str.◌++◌ (unwords (take max_words words)) "..."
      else raw_summary

  -- The loop that drops recent messages from the front; `total` counts their tokens and `used` those of the summary.
  unfoldable pub trim : ℕ → ℕ → ℕ → List ChatMessage → List ChatMessage
  unfolding message_tokens
  trim budget used total [] = []
  trim budget used total (m ∷ ms) =
      let rest = trim budget used (total - message_tokens m) ms in
      if ltb budget (total + used) then rest else m ∷ ms

  unfoldable pub summary_message : String → List ChatMessage
  summary_message text =
      if str_eq text "" then [] else record { role = "system"; content = text } ∷ []

  -- `_compact`: the messages of its result.
  unfoldable pub compact : ContextEngine → List ChatMessage → ℕ → List ChatMessage
  unfolding summary_text trim summary_message count_tokens estimate_tokens
  compact e messages budget =
      let recent_start = length messages - e.recent_turns in
      let recent = drop recent_start messages in
      let text = summary_text e budget (take recent_start messages) in
      let summary_tokens = if str_eq text "" then 0 else estimate_tokens text + 4 in
      summary_message text ++ trim budget summary_tokens (count_tokens recent) recent

  -- `build_context` on messages, once the budget is known.
  unfoldable pub fit : ContextEngine → ℕ → List ChatMessage → List ChatMessage
  unfolding compact count_tokens system_messages non_system
  fit e budget messages =
      let system_msgs = system_messages messages in
      let system_tokens = count_tokens system_msgs in
      let remaining_budget = budget - system_tokens in
      if leb budget system_tokens
      then system_msgs
      else if leb (count_tokens (non_system messages)) remaining_budget
      then messages
      else system_msgs ++ compact e (non_system messages) remaining_budget

  unfoldable pub budget_of : ContextEngine → Option ℕ → ℕ
  budget_of e none = e.budget
  budget_of e (some max_tokens) = max_tokens

  unfoldable pub build_context : ContextEngine → Option ℕ → List ChatMessage → List ChatMessage
  unfolding fit budget_of
  build_context e max_tokens [] = []
  build_context e max_tokens (m ∷ ms) = fit e (budget_of e max_tokens) (m ∷ ms)
