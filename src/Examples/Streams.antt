-- ===== src/Examples/Streams.antt =====
-- Streams and text at concrete inputs (anthropic.go, engine.go, api_handlers.go, request_detail.go, usage.go).
use gateway.Prelude.{
  ℕ, ◌≤◌, ◌≡◌, String, Bool, true, false, Option, none, some, List, [], ◌∷◌, ltb, if◌then◌else◌,
  arith,
}
use gateway.Anthropic.{
  tool_use, ToolFragment, StreamChunk, tool_block, AnthropicStream, new_anthropic_stream, reply,
}
use gateway.Anthropic.Grammar.{waiting, finished, read_all, reply-reads}
use gateway.Anthropic.Content.{texts, jsons, sent_texts, sent_jsons, reply-texts}
use gateway.Anthropic.Ending.{
  endings, stopped_by, last_tool, last_finish, last_usage, reply-endings,
}
use gateway.Stream.{
  ToolCall, Line, blank, unparsable, object, drain, new_ollama_stream, stream_completion,
  new_streamed,
}
use gateway.Stream.Receiving.{received, drain-received}
use gateway.Stream.Completion.{delivered, Tells, stream_completion-Tells}
use gateway.Text.Runes.{Rune, encode}
use gateway.Usage.{usage_bar_class}
use gateway.Usage.Bars.{IsBar, usage_bar_class-IsBar}

abbrev minted_id : ℕ → String
minted_id n = "toolu_1"

abbrev fragment : ℕ → String → String → ToolFragment
fragment i name arguments = record { index = i; id = ""; name = name; arguments = arguments }

abbrev says : String → List ToolFragment → Option String → Option StreamChunk
says content calls finish = some (record {
  choices = record { content = content; tool_calls = calls; finish_reason = finish } ∷ [];
  usage = none;
})

abbrev engine_chunks : List (Option StreamChunk)
engine_chunks =
    says "Let me look." [] none
    ∷ none
    ∷ says "" (fragment 0 "search" "{\"q\":" ∷ []) none
    ∷ says "" (fragment 0 "" "1}" ∷ []) (some "stop")
    ∷ []

reply-reads_example :
    read_all waiting (reply minted_id (new_anthropic_stream "msg_1" "llama") engine_chunks)
    ≡ some finished
reply-reads_example = reply-reads minted_id "msg_1" "llama" engine_chunks

reply-texts_example :
    (texts (reply minted_id (new_anthropic_stream "msg_1" "llama") engine_chunks)
      ≡ sent_texts engine_chunks)
    × (jsons (reply minted_id (new_anthropic_stream "msg_1" "llama") engine_chunks)
        ≡ sent_jsons engine_chunks)
reply-texts_example = reply-texts minted_id "msg_1" "llama" engine_chunks

reply-endings_example :
    endings (reply minted_id (new_anthropic_stream "msg_1" "llama") engine_chunks)
    ≡ (
      (if last_tool false engine_chunks
          then tool_use
          else stopped_by (last_finish "" engine_chunks)),
      last_usage (record { input_tokens = 0; output_tokens = 0 }) engine_chunks,
    )
      ∷ []
reply-endings_example = reply-endings minted_id "msg_1" "llama" engine_chunks

abbrev in_call : AnthropicStream
in_call = record (new_anthropic_stream "msg_1" "llama") {
  open_block = tool_block;
  blocks = 1;
  tool_index = 0;
  saw_tool = true;
}

abbrev call : ToolCall
call = record { id = 49 ∷ []; name = 102 ∷ []; arguments = 123 ∷ 125 ∷ [] }

abbrev line : Bool → List ToolCall → Line
line done calls = object (record {
  is_done = done;
  content = 104 ∷ 105 ∷ [];
  tool_calls = calls;
  length_limited = false;
  model = 109 ∷ [];
  prompt_eval_count = 3;
  eval_count = 4;
})

abbrev ollama_lines : List Line
ollama_lines =
    line false (call ∷ call ∷ []) ∷ blank ∷ unparsable ∷ line false (call ∷ []) ∷ line true [] ∷ []

drain-received_example :
    drain 6 (new_ollama_stream ollama_lines false) ≡ some (received false true 0 ollama_lines)
drain-received_example = drain-received ollama_lines false 6 (omega arith)

abbrev client_leaves : ℕ → Bool
client_leaves n = ltb n 2

stream_completion-Tells_example :
    Tells
      (new_streamed 4096)
      (stream_completion client_leaves 0 (received false true 0 ollama_lines) (new_streamed 4096))
      (delivered client_leaves 0 (received false true 0 ollama_lines))
stream_completion-Tells_example =
    stream_completion-Tells 4096 client_leaves (received false true 0 ollama_lines)

-- "é" and "€".
abbrev accents : List Rune
accents = encode 0xE9 ∷ encode 0x20AC ∷ []

usage_bar_class-IsBar_example :
    IsBar (usage_bar_class 3 1000)
    × ((usage_bar_class 1000 1000 ≡ 100) × (usage_bar_class 3 1000 ≤ usage_bar_class 450 1000))
usage_bar_class-IsBar_example =
    usage_bar_class-IsBar 3 450 1000 (omega arith) (omega arith) (omega arith)
