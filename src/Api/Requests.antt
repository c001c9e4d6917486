-- ===== src/Api/Requests.antt =====
-- The history that an engine gets of a client's request (api_handlers.go: sanitizeMessages,
-- buildEngineRequest; openai.go: openAIToOllama).
use gateway.Prelude.{◌≡◌, refl, ◌∙◌, true, Option, List, All, map, if◌then◌else◌, if_either}
use gateway.Json.{
  Json, null, boolean, number, text, array, object, Fields, no_fields, field, get, objects,
  as_items,
}
use gateway.Json.Maps.{get-set}
use gateway.Text.{Bytes}
use gateway.Engine.{Adapter, ollama_adapter, openai_compat_adapter}
use gateway.Messages.{fields_of}
use gateway.Messages.Bounds.{fits, sanitize_messages-All}
use gateway.OpenAi.History.{ollama_messages}
use gateway.OpenAi.Request.{
  with_options, with_tools, with_format, ollama_format, options_of, open_ai_to_ollama,
  build_engine_request,
}
use gateway.OpenAi.Allowed.{expected, get-open_ai_compat_request}
use gateway.Api.{Library, is_ollama, chat_history, engine_request}

messages-with_format :
    (format : Json) (req : Fields) → get "messages" (with_format format req) ≡ get "messages" req
unfolding with_format
messages-with_format null req = refl
messages-with_format (boolean b) req = get-set "format" "messages" (boolean b) req
messages-with_format (number n) req = get-set "format" "messages" (number n) req
messages-with_format (text s) req = get-set "format" "messages" (text s) req
messages-with_format (array xs) req = get-set "format" "messages" (array xs) req
messages-with_format (object f) req = get-set "format" "messages" (object f) req

messages-with_options :
    (options req : Fields) → get "messages" (with_options options req) ≡ get "messages" req
unfolding with_options
messages-with_options no_fields req = refl
messages-with_options (field k v rest) req =
    get-set "options" "messages" (object (field k v rest)) req

messages-with_tools :
    (body req : Fields) → get "messages" (with_tools body req) ≡ get "messages" req
unfolding with_tools
messages-with_tools body req =
    if_either (λ r. get "messages" r ≡ get "messages" req) _ _ _
      (λ _. get-set "tools" "messages" (get "tools" body) req) (λ _. refl)

messages-ollama :
    (decode : Bytes → Option Json) (body : Fields) (ms : List Fields)
    → get "messages" (open_ai_to_ollama decode body ms)
      ≡ array (objects (ollama_messages decode ms))
unfolding open_ai_to_ollama get
messages-ollama decode body ms =
    messages-with_format (ollama_format (get "response_format" body)) _
    ∙ messages-with_tools body _
    ∙ messages-with_options (options_of body) _

module _ (l : Library) where
  -- Whichever type its engine is of, the "messages" that the engine gets are those of the sanitized
  -- history, in Ollama's shape for an Ollama engine, and not what the client sent. In the sanitized
  -- history no text and no text part is over the bound; the text that Ollama's shape joins from the
  -- parts of a message may be.
  pub engine_request-chat_history :
      (adapter : Adapter) (f : Fields)
      → let ms = map fields_of (chat_history l f) in
        (get "messages" (engine_request l adapter f (chat_history l f))
          ≡ array (objects (if is_ollama adapter then ollama_messages l.decode ms else ms)))
        × All (λ m. fits l.max_msg_len m.content ≡ true) (chat_history l f)
  unfolding engine_request is_ollama chat_history build_engine_request expected
  engine_request-chat_history (ollama_adapter cf slots) f = (
    messages-ollama l.decode f _,
    sanitize_messages-All l.max_msg_len (as_items (get "messages" f)),
  )
  engine_request-chat_history (openai_compat_adapter cf slots) f = (
    get-open_ai_compat_request "messages" f _,
    sanitize_messages-All l.max_msg_len (as_items (get "messages" f)),
  )
