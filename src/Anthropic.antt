-- ===== src/Anthropic.antt =====
-- The streaming half of the Anthropic front-end (anthropic.go: anthropicStream, streamChunk, sseEvent
-- and stopReasonFromFinish). A payload enters as json.Unmarshal leaves it: a chunk, or nothing.
pub mod Grammar
pub mod Content
pub mod Ending
pub mod Request
pub mod Turns
pub mod Response
pub mod Answers
pub mod Relay
pub mod Exits
use gateway.Prelude.{
  ℕ, ◌+◌, ◌-◌, String, str_eq, Bool, true, false, not, ◌||◌, ◌&&◌, Option, none, some, List, [],
  ◌∷◌, ◌++◌, ◌==◌, if◌then◌else◌,
}

-- The types of anthropic.go's *string values stopEndTurn, stopMaxTokens and stopToolUse.
pub data StopReason : Type 0 where
  end_turn max_tokens tool_use : StopReason

unfoldable pub stop_reason_from_finish : String → StopReason
stop_reason_from_finish finish =
    if str_eq finish "length"
    then max_tokens
    else if str_eq finish "tool_calls" || str_eq finish "function_call"
    then tool_use
    else end_turn

pub record AnthropicUsage : Type 0 where
  pub input_tokens : ℕ
  pub output_tokens : ℕ

pub data SseEvent : Type 0 where
  message_start : String → String → SseEvent
  text_block_start : ℕ → SseEvent
  tool_block_start : ℕ → String → String → SseEvent
  text_delta : ℕ → String → SseEvent
  input_json_delta : ℕ → String → SseEvent
  content_block_stop : ℕ → SseEvent
  message_delta : StopReason → AnthropicUsage → SseEvent
  message_stop : SseEvent

-- The fields of streamChunk.
pub record ToolFragment : Type 0 where
  pub index : ℕ
  pub id : String
  pub name : String
  pub arguments : String

pub record Choice : Type 0 where
  pub content : String
  pub tool_calls : List ToolFragment
  pub finish_reason : Option String

pub record Usage : Type 0 where
  pub prompt_tokens : ℕ
  pub completion_tokens : ℕ

pub record StreamChunk : Type 0 where
  pub choices : List Choice
  pub usage : Option Usage

pub data OpenBlock : Type 0 where
  no_block text_block tool_block : OpenBlock

-- `blocks` is blockIndex + 1, the number of blocks opened so far; `minted` counts the calls of
-- newToolUseID, whose results are a parameter.
pub record AnthropicStream : Type 0 where
  pub id : String
  pub model : String
  pub started : Bool
  pub open_block : OpenBlock
  pub blocks : ℕ
  pub tool_index : ℕ
  pub saw_tool : Bool
  pub finish : String
  pub usage : AnthropicUsage
  pub minted : ℕ

unfoldable pub new_anthropic_stream : String → String → AnthropicStream
new_anthropic_stream id model = record {
  id = id;
  model = model;
  started = false;
  open_block = no_block;
  blocks = 0;
  tool_index = 0;
  saw_tool = false;
  finish = "";
  usage = record { input_tokens = 0; output_tokens = 0 };
  minted = 0;
}

unfoldable pub start : AnthropicStream → AnthropicStream × SseEvent
start s = (record s { started = true }, message_start s.id s.model)

unfoldable pub is_open : OpenBlock → Bool
is_open no_block = false
is_open text_block = true
is_open tool_block = true

unfoldable pub is_text : OpenBlock → Bool
is_text text_block = true
is_text no_block = false
is_text tool_block = false

unfoldable pub is_tool : OpenBlock → Bool
is_tool tool_block = true
is_tool no_block = false
is_tool text_block = false

unfoldable pub close_block : AnthropicStream → AnthropicStream × List SseEvent
unfolding is_open
close_block s =
    if is_open s.open_block
    then (record s { open_block = no_block }, content_block_stop (s.blocks - 1) ∷ [])
    else (s, [])

-- `if s.open != "text" { … }`
unfoldable pub enter_text : AnthropicStream → AnthropicStream × List SseEvent
unfolding is_text
enter_text s =
    let (closed, stops) = close_block s in
    if is_text s.open_block then (s, []) else (
      record closed { blocks = closed.blocks + 1; open_block = text_block },
      stops ++ text_block_start closed.blocks ∷ [],
    )

unfoldable pub on_content : AnthropicStream → String → AnthropicStream × List SseEvent
on_content s content =
    let (s', opening) = enter_text s in
    if str_eq content "" then (s, []) else (s', opening ++ text_delta (s'.blocks - 1) content ∷ [])

module _ (mint : ℕ → String) where
  -- `if s.open != "tool" || s.toolIndex != tc.Index { … }`
  unfoldable pub enter_tool : AnthropicStream → ToolFragment → AnthropicStream × List SseEvent
  unfolding is_tool
  enter_tool s tc =
      let (closed, stops) = close_block s in
      let no_id = str_eq tc.id "" in
      if is_tool s.open_block && s.tool_index == tc.index then (s, []) else (
        record closed {
          blocks = closed.blocks + 1;
          open_block = tool_block;
          tool_index = tc.index;
          saw_tool = true;
          minted = (if no_id then closed.minted + 1 else closed.minted);
        },
        stops
            ++ tool_block_start closed.blocks (if no_id then mint closed.minted else tc.id) tc.name
              ∷ [],
      )

  unfoldable pub on_tool : AnthropicStream → ToolFragment → AnthropicStream × List SseEvent
  on_tool s tc =
      let (s', opening) = enter_tool s tc in
      if str_eq tc.arguments ""
      then (s', opening)
      else (s', opening ++ input_json_delta (s'.blocks - 1) tc.arguments ∷ [])

  unfoldable pub on_tools : AnthropicStream → List ToolFragment → AnthropicStream × List SseEvent
  on_tools s [] = (s, [])
  on_tools s (tc ∷ rest) =
      let (s', now) = on_tool s tc in let (s'', later) = on_tools s' rest in (s'', now ++ later)

  abbrev pub with_finish : AnthropicStream → Option String → AnthropicStream
  with_finish s none = s
  with_finish s (some reason) = record s { finish = reason }

  unfoldable pub on_choice : AnthropicStream → Choice → AnthropicStream × List SseEvent
  on_choice s ch =
      let (s', texts) = on_content s ch.content in
      let (s'', tools) = on_tools s' ch.tool_calls in
      (with_finish s'' ch.finish_reason, texts ++ tools)

  unfoldable pub on_choices : AnthropicStream → List Choice → AnthropicStream × List SseEvent
  on_choices s [] = (s, [])
  on_choices s (ch ∷ rest) =
      let (s', now) = on_choice s ch in let (s'', later) = on_choices s' rest in (s'', now ++ later)

  abbrev pub with_usage : AnthropicStream → Option Usage → AnthropicStream
  with_usage s none = s
  with_usage s (some u) = record s {
    usage = record { input_tokens = u.prompt_tokens; output_tokens = u.completion_tokens };
  }

  -- (s *anthropicStream) chunk; `none` is a payload that does not parse.
  unfoldable pub chunk : AnthropicStream → Option StreamChunk → AnthropicStream × List SseEvent
  chunk s none = (s, [])
  chunk s (some c) = on_choices (with_usage s c.usage) c.choices

  unfoldable pub chunks :
      AnthropicStream → List (Option StreamChunk) → AnthropicStream × List SseEvent
  chunks s [] = (s, [])
  chunks s (c ∷ rest) =
      let (s', now) = chunk s c in let (s'', later) = chunks s' rest in (s'', now ++ later)

-- (s *anthropicStream) end
unfoldable pub end_stream : AnthropicStream → AnthropicStream × List SseEvent
end_stream s =
    let (s', stops) = close_block s in
    (
      s',
      stops
          ++ message_delta (if s'.saw_tool then tool_use else stop_reason_from_finish s'.finish)
              s'.usage
            ∷ message_stop
            ∷ [],
    )

-- The events that streamMessages sends for a stream that ends normally.
unfoldable pub reply : (ℕ → String) → AnthropicStream → List (Option StreamChunk) → List SseEvent
reply mint s payloads =
    let (begun, opening) = start s in
    let (s', body) = chunks mint begun payloads in opening ∷ body ++ (end_stream s').1
