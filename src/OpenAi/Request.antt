-- ===== src/OpenAi/Request.antt =====
-- The request that an engine is sent (openai.go: openAIToOllama, ollamaFormat; api_handlers.go:
-- buildEngineRequest, openAICompatRequest). `body` is the client's request, `messages` the
-- sanitized history.
use gateway.Prelude.{
  String, str_eq, Bool, true, false, not, ◌&&◌, Option, none, some, List, [], ◌∷◌, if◌then◌else◌,
}
use gateway.Text.{Bytes}
use gateway.Json.{
  Json, null, boolean, number, text, array, object, Items, no_items, item, Fields, no_fields, field,
  codes, literal, get, has, set, is, as_string, as_bool, as_items, as_fields, object_of, is_empty,
  objects,
}
use gateway.OpenAi.History.{is_blank, ollama_messages}

-- The strings of a list of stops.
unfoldable pub strings : Items → Items
strings no_items = no_items
strings (item (text s) rest) = item (text s) (strings rest)
strings (item null rest) = strings rest
strings (item (boolean b) rest) = strings rest
strings (item (number n) rest) = strings rest
strings (item (array xs) rest) = strings rest
strings (item (object f) rest) = strings rest

-- options["stop"], for a stop of the client's.
unfoldable pub with_stop : Json → Fields → Fields
unfolding strings
with_stop (text s) options = set "stop" (array (item (text s) no_items)) options
with_stop (array xs) options = set "stop" (array (strings xs)) options
with_stop null options = options
with_stop (boolean b) options = options
with_stop (number n) options = options
with_stop (object f) options = options

-- if v, ok := body[key]; ok { options[name] = v }
unfoldable pub with_option : String → String → Fields → Fields → Fields
with_option key name body options =
    if has key body then set name (get key body) options else options

unfoldable pub options_of : Fields → Fields
unfolding with_option with_stop
options_of body =
    let direct = with_option "temperature" "temperature" body (
      with_option "top_p" "top_p" body (
        with_option "seed" "seed" body (
          with_option "max_tokens" "num_predict" body (
            with_option "presence_penalty" "presence_penalty" body
              (with_option "frequency_penalty" "frequency_penalty" body no_fields))))) in
    with_stop (get "stop" body) (with_option "max_completion_tokens" "num_predict" body direct)

unfoldable pub model_or_default : Bytes → Bytes
unfolding is_blank
model_or_default m = if is_blank m then codes "llama3.2:latest" else m

unfoldable pub ollama_format : Json → Json
ollama_format rf = elim (object_of rf) [
  | none ↦ null
  | some m ↦
      if is "json_object" (get "type" m)
      then literal "json"
      else if is "json_schema" (get "type" m)
      then elim (object_of (get "schema" (as_fields (get "json_schema" m)))) [
        | some schema ↦ object schema
        | none ↦ literal "json"
      ]
      else null
]

unfoldable pub with_options : Fields → Fields → Fields
with_options no_fields req = req
with_options (field k v rest) req = set "options" (object (field k v rest)) req

-- len(tools) > 0 and a tool_choice that is not "none"
unfoldable pub with_tools : Fields → Fields → Fields
with_tools body req =
    if not (is_empty (as_items (get "tools" body))) && not (is "none" (get "tool_choice" body))
    then set "tools" (get "tools" body) req
    else req

unfoldable pub with_format : Json → Fields → Fields
with_format null req = req
with_format (boolean b) req = set "format" (boolean b) req
with_format (number n) req = set "format" (number n) req
with_format (text s) req = set "format" (text s) req
with_format (array xs) req = set "format" (array xs) req
with_format (object f) req = set "format" (object f) req

unfoldable pub open_ai_to_ollama : (Bytes → Option Json) → Fields → List Fields → Fields
unfolding options_of with_options with_tools with_format ollama_format model_or_default
open_ai_to_ollama decode body messages = with_format (ollama_format (get "response_format" body)) (
    with_tools body (
      with_options (options_of body) (
        field "model" (text (model_or_default (as_string (get "model" body)))) (
          field "messages" (array (objects (ollama_messages decode messages)))
            (field "stream" (boolean (as_bool (get "stream" body))) no_fields)))))

unfoldable pub among : String → List String → Bool
among key [] = false
among key (k ∷ ks) = if str_eq key k then true else among key ks

-- The allow-list of openAICompatRequest.
abbrev pub allowed_keys : List String
allowed_keys =
    "temperature" ∷ "top_p" ∷ "seed" ∷ "max_tokens" ∷ "max_completion_tokens" ∷ "frequency_penalty"
    ∷ "presence_penalty" ∷ "stop" ∷ "provider_options" ∷ "response_format" ∷ "service_tier"
    ∷ "logit_bias" ∷ "tools" ∷ "tool_choice" ∷ "logprobs" ∷ "top_logprobs" ∷ "parallel_tool_calls"
    ∷ "user" ∷ "n" ∷ []

-- The loop over the client's parameters, in an order of the map.
unfoldable pub copy_allowed : Fields → Fields → Fields
copy_allowed no_fields req = req
copy_allowed (field k v rest) req =
    let copied = copy_allowed rest req in if among k allowed_keys then set k v copied else copied

unfoldable pub stream_options : Fields → Fields
stream_options body = set "include_usage" (boolean true) (as_fields (get "stream_options" body))

unfoldable pub open_ai_compat_request : Fields → List Fields → Fields
unfolding copy_allowed stream_options
open_ai_compat_request body messages =
    let streaming = as_bool (get "stream" body) in
    let req = copy_allowed body (
      field "model" (get "model" body) (
        field "messages" (array (objects messages))
          (field "stream" (boolean streaming) no_fields))) in
    if streaming then set "stream_options" (object (stream_options body)) req else req

unfoldable pub build_engine_request : Bool → (Bytes → Option Json) → Fields → List Fields → Fields
unfolding open_ai_to_ollama open_ai_compat_request
build_engine_request is_ollama decode body messages =
    if is_ollama
    then open_ai_to_ollama decode body messages
    else open_ai_compat_request body messages
