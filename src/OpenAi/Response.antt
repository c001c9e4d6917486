-- ===== src/OpenAi/Response.antt =====
-- An Ollama answer in OpenAI's shape (openai.go: ollamaToOpenAI, openAIToolCalls, ollamaFinishReason,
-- toInt). Encoding, the conversion of numbers and the minting of IDs are parameters; a count that the
-- engine reports as negative is not in the model.
use gateway.Prelude.{ℕ, ◌+◌, Bool, true, false, Option, none, some, List, [], ◌∷◌, if◌then◌else◌}
use gateway.Text.{Bytes}
use gateway.Json.{
  Json, null, boolean, number, text, array, object, Items, no_items, item, Fields, codes, get, is,
  as_string, as_bool, as_items, as_fields,
}
use gateway.OpenAi.History.{is_blank}
use gateway.Stream.{ToolCall, OllamaChunk}

-- json.Marshal, int of a float64, strconv.Atoi after TrimSpace, and the n-th minted ID.
pub record Codec : Type 0 where
  pub encode : Json → Option Bytes
  pub int_of : ℕ → ℕ
  pub atoi : Bytes → Option ℕ
  pub mint : ℕ → Bytes

pub record ChatMessage : Type 0 where
  pub role : Bytes
  pub content : Bytes
  pub tool_calls : List ToolCall

pub record Choice : Type 0 where
  pub message : ChatMessage
  pub finish_reason : Option Bytes

pub record Usage : Type 0 where
  pub prompt_tokens : ℕ
  pub completion_tokens : ℕ
  pub total_tokens : ℕ

pub record ChatCompletion : Type 0 where
  pub model : Bytes
  pub choices : List Choice
  pub usage : Usage

abbrev pub finish_stop : Bytes
finish_stop = codes "stop"

abbrev pub finish_length : Bytes
finish_length = codes "length"

abbrev pub finish_tool_calls : Bytes
finish_tool_calls = codes "tool_calls"

unfoldable pub ollama_finish_reason : Fields → Bytes
ollama_finish_reason chunk =
    if is "length" (get "done_reason" chunk) then finish_length else finish_stop

unfoldable pub is_none : List ToolCall → Bool
is_none [] = true
is_none (c ∷ cs) = false

unfoldable pub role_of : Fields → Bytes
unfolding is_blank
role_of msg =
    if is_blank (as_string (get "role" msg)) then codes "assistant" else as_string (get "role" msg)

module _ (codec : Codec) where
  open codec use {encode, int_of, atoi, mint}

  unfoldable pub to_int : Json → ℕ
  to_int null = 0
  to_int (boolean b) = 0
  to_int (number n) = int_of n
  to_int (text s) = elim (atoi s) [ none ↦ 0 | some n ↦ n ]
  to_int (array xs) = 0
  to_int (object f) = 0

  -- json.Marshal's text, or "{}" where it fails.
  unfoldable pub encoded : Json → Bytes
  encoded v = elim (encode v) [ none ↦ codes "{}" | some s ↦ s ]

  unfoldable pub arguments_of : Json → Bytes
  unfolding encoded
  arguments_of null = codes "{}"
  arguments_of (boolean b) = encoded (boolean b)
  arguments_of (number n) = encoded (number n)
  arguments_of (text s) = s
  arguments_of (array xs) = encoded (array xs)
  arguments_of (object f) = encoded (object f)

  unfoldable pub tool_call : ℕ → Fields → ToolCall
  unfolding arguments_of is_blank
  tool_call n call =
      let fn = as_fields (get "function" call) in
      let id = as_string (get "id" call) in
      record {
        id = if is_blank id then mint n else id;
        name = as_string (get "name" fn);
        arguments = arguments_of (get "arguments" fn);
      }

  -- The loop of openAIToolCalls, from its n-th round on.
  unfoldable pub tool_calls_from : ℕ → Items → List ToolCall
  unfolding tool_call
  tool_calls_from n no_items = []
  tool_calls_from n (item c rest) = tool_call n (as_fields c) ∷ tool_calls_from (n + 1) rest

  unfoldable pub open_ai_tool_calls : Fields → List ToolCall
  unfolding tool_calls_from
  open_ai_tool_calls msg = tool_calls_from 0 (as_items (get "tool_calls" msg))

  unfoldable pub ollama_to_open_ai : Fields → ChatCompletion
  unfolding to_int open_ai_tool_calls role_of ollama_finish_reason is_none
  ollama_to_open_ai ollama =
      let msg = as_fields (get "message" ollama) in
      let calls = open_ai_tool_calls msg in
      let prompt = to_int (get "prompt_eval_count" ollama) in
      let completion = to_int (get "eval_count" ollama) in
      record {
        model = as_string (get "model" ollama);
        choices =
            record {
              message = record {
                role = role_of msg;
                content = as_string (get "content" msg);
                tool_calls = calls;
              };
              finish_reason =
                  some (if is_none calls then ollama_finish_reason ollama else finish_tool_calls);
            }
            ∷ [];
        usage = record {
          prompt_tokens = prompt;
          completion_tokens = completion;
          total_tokens = prompt + completion;
        };
      }

  -- The fields that formatStreamChunk and ollamaStream read of a line's object.
  unfoldable pub chunk_of : Fields → OllamaChunk
  unfolding to_int open_ai_tool_calls
  chunk_of chunk =
      let msg = as_fields (get "message" chunk) in
      record {
        is_done = as_bool (get "done" chunk);
        content = as_string (get "content" msg);
        tool_calls = open_ai_tool_calls msg;
        length_limited = is "length" (get "done_reason" chunk);
        model = as_string (get "model" chunk);
        prompt_eval_count = to_int (get "prompt_eval_count" chunk);
        eval_count = to_int (get "eval_count" chunk);
      }
