-- ===== src/Api.antt =====
-- The completion endpoints from end to end (api_handlers.go: handleChatCompletions, handleMessages,
-- handleCountTokens, buildEngineRequest; anthropic.go: estimateTokens). What the engine answers, and
-- what can be written to the client, is part of a request.
pub mod Slots
pub mod Audits
pub mod Requests
pub mod Models
pub mod Catalogue
use gateway.Prelude.{
  ℕ, ◌+◌, ◌/◌, String, Bool, true, false, ◌||◌, Option, none, some, List, [], ◌∷◌, ◌++◌, map,
  length, if◌then◌else◌,
}
use gateway.Text.{Bytes}
use gateway.Json.{
  Json, null, boolean, number, text, array, object, Fields, no_fields, get, has, is_null, as_string,
  as_bool, as_items,
}
use gateway.Engine.{EngineCache, Adapter, ollama_adapter, openai_compat_adapter}
use gateway.RateLimit.{Rate, is_allowed}
use gateway.Routing.{RouteIndex}
use gateway.Users.{User}
use gateway.Messages.{Message, sanitize_messages, fields_of}
use gateway.Admission.{
  Body, too_large, invalid, without_messages, completion, Admitted, refused, admitted, release,
  Gateway, admit_completion,
}
use gateway.OpenAi.History.{is_blank}
use gateway.OpenAi.Request.{build_engine_request}
use gateway.OpenAi.Response.{Codec, ChatCompletion, ollama_to_open_ai}
use gateway.Anthropic.Request.{anthropic_to_open_ai}
use gateway.Anthropic.Response.{AnthropicMessage, open_ai_to_anthropic}
use gateway.Anthropic.{AnthropicStream}
use gateway.Anthropic.Relay.{Relayed, stream_messages}
use gateway.Stream.{Streamed, new_streamed, stream_completion, Outcome}

-- What decodeAPIBody reads.
pub data Read : Type 0 where
  body_too_large : Read
  not_an_object : Read
  decoded : Fields → Read

-- What adapter.Chat returns; `client_left` is an error with a request context that has ended.
pub data Chat : Type 0 where
  answered : Fields → Chat
  failed : Chat
  client_left : Chat

-- How a stream opens, with what is received of it.
pub data Opening (Received : Type 0) : Type 0 where
  no_flusher : Opening Received
  not_opened : Opening Received
  left_before : Opening Received
  opened : List Received → Opening Received

-- What is answered and audited: a translated or a relayed completion, or an Anthropic message.
pub data Payload : Type 0 where
  translated : ChatCompletion → Payload
  relayed : Fields → Payload
  message : AnthropicMessage → Payload
  audit_text : Bytes → Option Outcome → Payload

-- logInteraction
pub record Interaction : Type 0 where
  pub user_id : ℕ
  pub messages : List Message
  pub response : Payload
  pub model : Bytes

-- The answer: an error's status, nothing, a JSON body, or a stream.
pub data Reply : Type 0 where
  error : ℕ → Reply
  nothing : Reply
  ok : Payload → Reply
  sse : Streamed → Reply
  events : Relayed → Reply
  tokens : ℕ → Reply

-- What the handlers call: the codecs of the translations, the text of bytes, json.Unmarshal of a
-- relayed answer, and cfg.MaxMsgLen.
pub record Library : Type 0 where
  pub codec : Codec
  pub decode : Bytes → Option Json
  pub encode : Json → Option Bytes
  pub valid : Bytes → Bool
  pub mint : ℕ → Bytes
  pub mint_stream : ℕ → String
  pub new_stream : Bytes → AnthropicStream
  pub string_of : Bytes → String
  pub completion_of : Fields → Option ChatCompletion
  pub max_msg_len : ℕ

-- What one request meets. `chat` and the openings are the engine's answers to the request that is
-- built for it.
pub record Answers : Type 0 where
  pub cache : EngineCache
  pub now : ℕ
  pub built : RouteIndex
  pub gives_up : Bool
  pub chat : Adapter → Fields → Chat
  pub stream : Adapter → Fields → Opening gateway.Stream.Received
  pub event_stream : Adapter → Fields → Opening gateway.Anthropic.Relay.Received
  pub writes_ok : ℕ → Bool

unfoldable pub is_ollama : Adapter → Bool
is_ollama (ollama_adapter cf slots) = true
is_ollama (openai_compat_adapter cf slots) = false

unfoldable pub is_array : Json → Bool
is_array null = false
is_array (boolean b) = false
is_array (number n) = false
is_array (text s) = false
is_array (array xs) = true
is_array (object f) = false

unfoldable pub fields_read : Read → Fields
fields_read body_too_large = no_fields
fields_read not_an_object = no_fields
fields_read (decoded f) = f

-- What is left of an answer, with the interaction that is logged for it.
unfoldable pub logged : Reply → Payload → ℕ → List Message → Bytes → Reply × List Interaction
logged reply response user_id messages model = (
  reply,
  record { user_id = user_id; messages = messages; response = response; model = model } ∷ [],
)

module _ (l : Library) where
  -- The body of a chat completion, as its admission sees it.
  unfoldable pub chat_body : Read → Body
  chat_body body_too_large = too_large
  chat_body not_an_object = invalid
  chat_body (decoded f) =
      if has "messages" f
      then completion (l.string_of (as_string (get "model" f)))
      else without_messages

  -- The body of a Messages request.
  unfoldable pub messages_body : Read → Body
  unfolding is_array is_blank
  messages_body body_too_large = too_large
  messages_body not_an_object = invalid
  messages_body (decoded f) =
      if is_blank (as_string (get "model" f))
      then without_messages
      else if is_array (get "messages" f)
      then completion (l.string_of (as_string (get "model" f)))
      else without_messages

  unfoldable pub chat_history : Fields → List Message
  chat_history f = sanitize_messages l.max_msg_len (as_items (get "messages" f))

  unfoldable pub messages_history : Fields → List Message
  messages_history f =
      sanitize_messages l.max_msg_len (gateway.Json.objects (anthropic_to_open_ai l.encode f).1)

  -- buildEngineRequest on a sanitized history.
  unfoldable pub engine_request : Adapter → Fields → List Message → Fields
  unfolding is_ollama
  engine_request adapter f messages =
      build_engine_request (is_ollama adapter) l.decode f (map fields_of messages)

  unfoldable pub payload_of : Adapter → Fields → Payload
  unfolding is_ollama
  payload_of adapter result =
      if is_ollama adapter then translated (ollama_to_open_ai l.codec result) else relayed result

  -- What a chat completion makes of the engine's answer, and of its stream (streamCompletion).
  unfoldable pub chat_answer : ℕ → List Message → Bytes → Adapter → Chat → Reply × List Interaction
  unfolding payload_of logged
  chat_answer user_id messages model adapter failed = (error 502, [])
  chat_answer user_id messages model adapter client_left = (nothing, [])
  chat_answer user_id messages model adapter (answered result) =
      logged (ok (payload_of adapter result)) (payload_of adapter result) user_id messages model

  unfoldable pub chat_stream :
      (ℕ → Bool)
      → ℕ
      → List Message
      → Bytes
      → Opening gateway.Stream.Received
      → Reply × List Interaction
  unfolding logged
  chat_stream writes_ok user_id messages model no_flusher = (error 500, [])
  chat_stream writes_ok user_id messages model not_opened = (error 502, [])
  chat_stream writes_ok user_id messages model left_before = (nothing, [])
  chat_stream writes_ok user_id messages model (opened rs) =
      let t = stream_completion writes_ok 0 rs (new_streamed l.max_msg_len) in
      logged (sse t) (audit_text t.audit.buf t.outcome) user_id messages model

  -- A chat completion after its admission.
  unfoldable pub serve_chat : ℕ → Fields → Adapter → Answers → Reply × List Interaction
  unfolding chat_history engine_request chat_answer chat_stream
  serve_chat user_id f adapter a =
      let model = as_string (get "model" f) in
      let messages = chat_history f in
      let req = engine_request adapter f messages in
      if as_bool (get "stream" f)
      then chat_stream a.writes_ok user_id messages model (a.stream adapter req)
      else chat_answer user_id messages model adapter (a.chat adapter req)

  -- openAIToAnthropic of an engine's answer; `none` is one that does not decode.
  unfoldable pub message_of : Bytes → Adapter → Fields → Option AnthropicMessage
  unfolding is_ollama
  message_of model adapter result =
      if is_ollama adapter
      then some (open_ai_to_anthropic l.valid l.mint model (ollama_to_open_ai l.codec result))
      else elim (l.completion_of result) [
        | none ↦ none
        | some c ↦ some (open_ai_to_anthropic l.valid l.mint model c)
      ]

  -- What a Messages request makes of the engine's answer, and of its stream.
  unfoldable pub message_answer :
      ℕ → List Message → Bytes → Option AnthropicMessage → Reply × List Interaction
  unfolding logged
  message_answer user_id messages model none = (error 502, [])
  message_answer user_id messages model (some m) =
      logged (ok (message m)) (message m) user_id messages model

  unfoldable pub messages_answer :
      ℕ → List Message → Bytes → Adapter → Chat → Reply × List Interaction
  unfolding message_of message_answer
  messages_answer user_id messages model adapter failed = (error 502, [])
  messages_answer user_id messages model adapter client_left = (nothing, [])
  messages_answer user_id messages model adapter (answered result) =
      message_answer user_id messages model (message_of model adapter result)

  unfoldable pub messages_stream :
      (ℕ → Bool)
      → ℕ
      → List Message
      → Bytes
      → Opening gateway.Anthropic.Relay.Received
      → Reply × List Interaction
  unfolding logged
  messages_stream writes_ok user_id messages model no_flusher = (error 500, [])
  messages_stream writes_ok user_id messages model not_opened = (error 502, [])
  messages_stream writes_ok user_id messages model left_before = (nothing, [])
  messages_stream writes_ok user_id messages model (opened rs) =
      let t = stream_messages l.mint_stream writes_ok l.max_msg_len (l.new_stream model) rs in
      logged (events t) (audit_text t.audit.buf t.outcome) user_id messages model

  -- A Messages request after its admission.
  unfoldable pub serve_messages : ℕ → Fields → Adapter → Answers → Reply × List Interaction
  unfolding messages_history engine_request messages_answer messages_stream
  serve_messages user_id f adapter a =
      let model = as_string (get "model" f) in
      let messages = messages_history f in
      let params = (anthropic_to_open_ai l.encode f).0 in
      let req = engine_request adapter params messages in
      if as_bool (get "stream" params)
      then messages_stream a.writes_ok user_id messages model (a.event_stream adapter req)
      else messages_answer user_id messages model adapter (a.chat adapter req)

  unfoldable pub encoded_length : Json → ℕ
  unfolding is_null
  encoded_length v = if is_null v then 0 else elim (l.encode v) [ none ↦ 0 | some s ↦ length s ]

  unfoldable pub encoded_lengths : List Json → ℕ
  unfolding encoded_length
  encoded_lengths [] = 0
  encoded_lengths (v ∷ vs) = encoded_length v + encoded_lengths vs

  unfoldable pub estimate_tokens : List Json → ℕ
  unfolding encoded_lengths
  estimate_tokens vs = (encoded_lengths vs + 3) / 4

unfoldable pub user_id_of : Option User → ℕ
user_id_of none = 0
user_id_of (some u) = u.id

module _ (rate : Rate) (l : Library) where
  -- The admission with what follows it: the deferred release runs on every exit.
  unfoldable pub with_slot :
      Gateway rate × Admitted
      → (Adapter → Reply × List Interaction)
      → Gateway rate × Reply × List Interaction
  with_slot (g, refused code) serve = (g, error code, [])
  with_slot (g, admitted adapter) serve =
      let (reply, log) = serve adapter in (record g { taken = release adapter g.taken }, reply, log)

  unfoldable pub handle_chat_completions :
      Option User → Read → Answers → Gateway rate → Gateway rate × Reply × List Interaction
  unfolding chat_body serve_chat with_slot fields_read user_id_of
  handle_chat_completions user read a g =
      with_slot (admit_completion rate a.cache user (chat_body l read) a.now a.built a.gives_up g)
        (λ adapter. serve_chat l (user_id_of user) (fields_read read) adapter a)

  unfoldable pub handle_messages :
      Option User → Read → Answers → Gateway rate → Gateway rate × Reply × List Interaction
  unfolding messages_body serve_messages with_slot fields_read user_id_of
  handle_messages user read a g =
      with_slot
        (admit_completion rate a.cache user (messages_body l read) a.now a.built a.gives_up g)
        (λ adapter. serve_messages l (user_id_of user) (fields_read read) adapter a)

  unfoldable pub handle_count_tokens :
      Option User → Read → Answers → Gateway rate → Gateway rate × Reply
  unfolding estimate_tokens
  handle_count_tokens none read a g = (g, error 401)
  handle_count_tokens (some u) read a g =
      let limited = is_allowed rate g.limits u.id u.rate_limit a.now a.now in
      let g' = record g { limits = limited.0 } in
      if limited.1
      then elim read [
        | body_too_large ↦ (g', error 413)
        | not_an_object ↦ (g', error 400)
        | decoded f ↦ (
          g',
          tokens (estimate_tokens l (get "system" f ∷ get "messages" f ∷ get "tools" f ∷ [])),
        )
      ]
      else (g', error 429)
