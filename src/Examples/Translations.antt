-- ===== src/Examples/Translations.antt =====
-- A tool loop and its answer at concrete inputs (openai.go, anthropic.go, api_handlers.go).
use gateway.Prelude.{ℕ, ◌≡◌, refl, true, false, Option, none, some, [], ◌∷◌, ◌++◌, arith, get_elem?}
use gateway.Text.{Bytes}
use gateway.Json.{
  Json, null, boolean, number, array, object, Items, no_items, item, Fields, no_fields, field,
  codes, literal, get, is, as_string, as_fields, as_bool, bytes_eq,
}
use gateway.OpenAi.History.{is_blank, ollama_messages}
use gateway.OpenAi.Names.{calls_of_all, last_named, or_blank, text_or_null, tool_name-last_named}
use gateway.OpenAi.Request.{open_ai_compat_request}
use gateway.OpenAi.Allowed.{expected, get-open_ai_compat_request}
use gateway.OpenAi.Response.{Codec, role_of, chunk_of, ollama_to_open_ai}
use gateway.OpenAi.Streaming.{assembled, drain-ollama_to_open_ai}
use gateway.Stream.{Chunk, object as object_line, frame, meta_of, drain, new_ollama_stream}
use gateway.Anthropic.Response.{open_ai_to_anthropic}
use gateway.Anthropic.Answers.{Tells, open_ai_to_anthropic-Tells}

-- The assistant calls "clock" as c1, and the tool answers.
abbrev call : Fields
call = field "role" (literal "assistant") (
    field "tool_calls"
      (array (
        item
          (object (
            field "id" (literal "c1")
              (field "function" (object (field "name" (literal "clock") no_fields)) no_fields)))
          no_items))
      no_fields)

abbrev result : Fields
result =
    field "role" (literal "tool")
      (field "tool_call_id" (literal "c1") (field "content" (literal "noon") no_fields))

abbrev no_json : Bytes → Option Json
no_json s = none

tool_name-last_named_example :
    (om : Fields) × (get_elem? (ollama_messages no_json ((call ∷ []) ++ result ∷ [])) 1 ≡ some om)
    × (get "tool_name" om
        ≡ text_or_null (or_blank (last_named (codes "c1") (calls_of_all (call ∷ result ∷ [])))))
unfolding get is as_string bytes_eq
tool_name-last_named_example = tool_name-last_named no_json (call ∷ []) [] result refl refl

abbrev ask : Fields
ask = field "model" (literal "qwen") (
    field "temperature" (number 1)
      (field "stream" (boolean true) (field "metadata" (literal "mine") no_fields)))

get-open_ai_compat_request_example :
    get "metadata" (open_ai_compat_request ask (result ∷ []))
    ≡ expected "metadata" ask (result ∷ [])
get-open_ai_compat_request_example = get-open_ai_compat_request "metadata" ask (result ∷ [])

abbrev plain : Codec
plain = record { encode = λ v. none; int_of = λ n. n; atoi = λ s. none; mint = λ n. codes "call_1" }

abbrev answer : Fields
answer = field "done" (boolean true) (
    field "model" (literal "qwen") (
      field "message" (object (field "content" (literal "hi") no_fields))
        (field "prompt_eval_count" (number 3) (field "eval_count" (number 2) no_fields))))

drain-ollama_to_open_ai_example :
    (c : Chunk) × (drain 2 (new_ollama_stream (object_line (chunk_of plain answer) ∷ []) false)
      ≡ some (frame c (meta_of c) ∷ []))
    × (assembled (role_of (as_fields (get "message" answer))) c ≡ ollama_to_open_ai plain answer)
unfolding get as_bool
drain-ollama_to_open_ai_example = drain-ollama_to_open_ai plain answer 2 refl (omega arith)

abbrev turns : Items
turns =
    item
      (object (
        field "role" (literal "assistant") (
          field "content"
            (array (
              item
                (object (
                  field "type" (literal "tool_use")
                    (field "id" (literal "t1") (field "name" (literal "clock") no_fields))))
                no_items))
            no_fields)))
      (item null no_items)

abbrev no_text : Json → Option Bytes
no_text v = none

minted : (n : ℕ) → is_blank (codes "call_1") ≡ false
unfolding is_blank
minted n = refl

open_ai_to_anthropic-Tells_example :
    Tells plain answer
      (open_ai_to_anthropic is_blank plain.mint (codes "qwen") (ollama_to_open_ai plain answer))
open_ai_to_anthropic-Tells_example =
    open_ai_to_anthropic-Tells plain is_blank plain.mint minted (codes "qwen") answer
