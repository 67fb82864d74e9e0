-- ===== src/Loops.antt =====
-- src/loop-utils.ts, and what the loops of src/knowledge-loop.ts and src/memory-loop.ts read of a
-- step of the agent. Its messages and its decision are those of the agent's packages.
pub mod Knowledge
pub mod Memory
pub mod Recorded
pub mod Advised
pub mod Captured
pub mod Quoted
use dsh_ai_coding.Base.{
  Option, none, some, List, [], ◌∷◌, map, String, Bool, select, find_by, or_else, str_eq,
  if◌then◌else◌, str_append, is_empty_text, is_blank, trim,
}

pub record ContentBlock : Type 0 where
  pub block_type : String
  pub text : Option String

pub record UserMessage : Type 0 where
  pub source_kind : String
  pub content : List ContentBlock

pub data PreStepDecision : Type 0 where
  enter : List UserMessage → PreStepDecision
  reject : PreStepDecision

-- `texts.join(separator)`.
abbrev pub join_texts : String → List String → String
join_texts separator [] = String.[]
join_texts separator (t ∷ []) = t
join_texts separator (t ∷ u ∷ ts) =
    str_append t (str_append separator (join_texts separator (u ∷ ts)))

abbrev pub text_of_blocks : List ContentBlock → Option String
text_of_blocks blocks =
    let text =
      join_texts String.[]
        (map (λ b. or_else b.text String.[]) (select (λ b. str_eq b.block_type "text") blocks)) in
    if is_empty_text text then none else some text

abbrev pub is_user : UserMessage → Bool
is_user message = str_eq message.source_kind "user"

-- The trimmed text of the first message of the user, where it is not blank.
abbrev pub query_of : List UserMessage → Option String
query_of messages = elim (find_by is_user messages) [
  | none ↦ none
  | some user ↦ elim (text_of_blocks user.content) [
    | none ↦ none
    | some query ↦ if is_blank query then none else some (trim query)
  ]
]
