-- ===== src/Anthropic/Response.antt =====
-- A whole answer as an Anthropic message (anthropic.go: openAIToAnthropic, stopReasonFromFinish,
-- toolInput, anthropicError). An answer that was relayed enters as it is decoded into ChatCompletion.
use gateway.Prelude.{
  ℕ, ◌+◌, Bool, ◌||◌, Option, none, some, List, [], ◌∷◌, ◌++◌, ◌==◌, if◌then◌else◌,
}
use gateway.Text.{Bytes}
use gateway.Json.{codes, bytes_eq}
use gateway.OpenAi.History.{is_blank}
use gateway.Stream.{ToolCall}
use gateway.OpenAi.Response.{Choice, ChatCompletion, is_none}
use gateway.Anthropic.{StopReason, end_turn, max_tokens, tool_use, AnthropicUsage}

-- stopReasonFromFinish, on bytes.
unfoldable pub stop_reason : Bytes → StopReason
stop_reason finish =
    if bytes_eq finish (codes "length")
    then max_tokens
    else if bytes_eq finish (codes "tool_calls") || bytes_eq finish (codes "function_call")
    then tool_use
    else end_turn

-- The type of an error's envelope.
unfoldable pub error_type : ℕ → Bytes → Bytes
error_type status err_type =
    if status == 404
    then codes "not_found_error"
    else if status == 503 || status == 529
    then codes "overloaded_error"
    else err_type

pub data ContentBlock : Type 0 where
  text_block : Bytes → ContentBlock
  tool_use_block : Bytes → Bytes → Bytes → ContentBlock

pub record AnthropicMessage : Type 0 where
  pub model : Bytes
  pub content : List ContentBlock
  pub stop_reason : StopReason
  pub usage : AnthropicUsage

unfoldable pub text_blocks : Bytes → List ContentBlock
text_blocks [] = []
text_blocks (b ∷ s) = text_block (b ∷ s) ∷ []

unfoldable pub finish_or_blank : Option Bytes → Bytes
finish_or_blank none = []
finish_or_blank (some finish) = finish

-- `valid` is that the text is JSON and not blank; `mint` gives the n-th tool-use ID.
module _ (valid : Bytes → Bool) (mint : ℕ → Bytes) where
  unfoldable pub tool_input : Bytes → Bytes
  tool_input args = if valid args then args else codes "{}"

  unfoldable pub tool_block : ℕ → ToolCall → ContentBlock
  unfolding tool_input is_blank
  tool_block n tc =
      tool_use_block (if is_blank tc.id then mint n else tc.id) tc.name (tool_input tc.arguments)

  unfoldable pub tool_blocks : ℕ → List ToolCall → List ContentBlock
  unfolding tool_block
  tool_blocks n [] = []
  tool_blocks n (tc ∷ rest) = tool_block n tc ∷ tool_blocks (n + 1) rest

  unfoldable pub from_choice : Bytes → AnthropicUsage → Choice → AnthropicMessage
  unfolding text_blocks tool_blocks finish_or_blank is_none
  from_choice model usage choice = record {
    model = model;
    content = text_blocks choice.message.content ++ tool_blocks 0 choice.message.tool_calls;
    stop_reason =
        if is_none choice.message.tool_calls
        then stop_reason (finish_or_blank choice.finish_reason)
        else tool_use;
    usage = usage;
  }

  unfoldable pub open_ai_to_anthropic : Bytes → ChatCompletion → AnthropicMessage
  unfolding from_choice
  open_ai_to_anthropic model answer =
      let usage : AnthropicUsage = record {
        input_tokens = answer.usage.prompt_tokens;
        output_tokens = answer.usage.completion_tokens;
      } in
      elim answer.choices [
        | [] ↦ record { model = model; content = []; stop_reason = end_turn; usage = usage }
        | choice ∷ rest ↦ from_choice model usage choice
      ]
