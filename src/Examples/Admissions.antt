-- ===== src/Examples/Admissions.antt =====
-- Admissions at concrete inputs (api_handlers.go, engine.go).
use gateway.Prelude.{
  ℕ, ◌-◌, ◌≡◌, refl, true, false, none, some, List, [], ◌∷◌, ◌==◌, ltb, if◌then◌else◌, empty_map,
  nat_key, All, map,
}
use gateway.Engine.{EngineConfig, ollama_adapter, EngineCache}
use gateway.RateLimit.{Rate}
use gateway.Routing.{Answer, build_route_index}
use gateway.Users.{User}
use gateway.Admission.{Gateway}
use gateway.Json.{
  array, object, no_items, item, Fields, no_fields, field, codes, literal, get, objects,
}
use gateway.Messages.{fields_of}
use gateway.Messages.Bounds.{fits}
use gateway.OpenAi.History.{ollama_messages}
use gateway.Anthropic.{AnthropicStream, new_anthropic_stream}
use gateway.Anthropic.Relay.{Received, failed, frame, stream_messages}
use gateway.Anthropic.Exits.{
  Begins, script, Complete, stream_messages-Begins, stream_messages-Complete,
}
use gateway.Api.{
  is_ollama, user_id_of, Library, Answers, answered, not_opened, decoded, chat_history,
  engine_request, handle_chat_completions,
}
use gateway.Api.Models.{Snapshot, Numbers, handle_list_models}
use gateway.Api.Catalogue.{Lists, handle_list_models-Lists}
use gateway.Api.Slots.{chat-taken}
use gateway.Api.Audits.{Audited, chat-Audited}
use gateway.Api.Requests.{engine_request-chat_history}

abbrev strict : Rate
strict = record { Limiter = ℕ; new_limiter = λ limit t. limit; allow = λ l t. (l - 1, ltb 0 l) }

abbrev north : EngineConfig
north = record {
  id = 1;
  name = "north";
  type = "ollama";
  base_url = "north";
  port = 11434;
  api_key = "";
}

abbrev only_north : EngineCache
only_north = record {
  engines = north ∷ [];
  adapters = λ id. if id == 1 then some (ollama_adapter north 8) else none;
}

abbrev north_answers : List Answer
north_answers = record { engine = 1; up = true; models = "llama" ∷ [] } ∷ []

abbrev busy_with : ℕ → Gateway strict
busy_with n = record {
  limits = record { m = empty_map; heap = empty_map; next = 0 };
  routing = record { index = none; gen = 0; refreshing = false };
  taken = λ id. n;
}

abbrev eve : User
eve = record { id = 3; name = "eve"; api_key = "h3"; status = "active"; rate_limit = 2 }

abbrev hello : Fields
hello = field "model" (literal "llama") (
    field "messages"
      (array (
        item (object (field "role" (literal "user") (field "content" (literal "hi") no_fields)))
          no_items))
      no_fields)

abbrev toolkit : Library
toolkit = record {
  codec = record { encode = λ v. none; int_of = λ n. n; atoi = λ s. none; mint = λ n. codes "c" };
  decode = λ s. none;
  encode = λ v. none;
  valid = λ s. false;
  mint = λ n. codes "toolu_1";
  mint_stream = λ n. "toolu_1";
  new_stream = λ model. new_anthropic_stream "msg_1" "llama";
  string_of = λ s. "llama";
  completion_of = λ f. none;
  max_msg_len = 100;
}

abbrev met : Answers
met = record {
  cache = only_north;
  now = 5;
  built = build_route_index 5 north_answers;
  gives_up = false;
  chat = λ adapter req. answered (field "model" (literal "llama") no_fields);
  stream = λ adapter req. not_opened;
  event_stream = λ adapter req. not_opened;
  writes_ok = λ n. true;
}

chat-taken_example :
    (handle_chat_completions strict toolkit (some eve) (decoded hello) met (busy_with 7)).0.taken 1
    ≡ (busy_with 7).taken 1
chat-taken_example = chat-taken toolkit (some eve) (decoded hello) met (busy_with 7) 1

chat-Audited_example :
    let r = handle_chat_completions strict toolkit (some eve) (decoded hello) met (busy_with 7) in
    Audited toolkit 3 r.1 r.2
unfolding user_id_of
chat-Audited_example = chat-Audited toolkit (some eve) (decoded hello) met (busy_with 7)

engine_request-chat_history_example :
    let adapter = ollama_adapter north 8 in
    let history = chat_history toolkit hello in
    (get "messages" (engine_request toolkit adapter hello history)
      ≡ array (objects (ollama_messages (λ s. none) (map fields_of history))))
    × All (λ m. fits 100 m.content ≡ true) history
unfolding is_ollama ollama_messages
engine_request-chat_history_example =
    engine_request-chat_history toolkit (ollama_adapter north 8) hello

abbrev broken : List Received
broken =
    frame none
      (record { audit_text = codes "a"; model = []; finish = none; in_tokens = 0; out_tokens = 0 })
    ∷ failed
    ∷ []

abbrev translator : AnthropicStream
translator = new_anthropic_stream "msg_1" "llama"

stream_messages-Begins_example :
    Begins
      (stream_messages (λ n. "t") (λ n. ltb n 1) 100 translator broken).sent
      (script (λ n. "t") translator broken)
stream_messages-Begins_example =
    stream_messages-Begins (λ n. "t") (λ n. ltb n 1) 100 translator broken

stream_messages-Complete_example :
    Complete
      (λ n. "t")
      (λ n. true)
      translator
      broken
      (script (λ n. "t") translator broken)
      (record { limit = 100; buf = [] })
      (stream_messages (λ n. "t") (λ n. true) 100 translator broken)
stream_messages-Complete_example =
    stream_messages-Complete (λ n. "t") (λ n. true) 100 translator broken (λ k. refl)

abbrev up_north : Snapshot
up_north =
    (
      1,
      record {
        status = true;
        models = "llama" ∷ [];
        raw = record { name = "llama"; id = "" } ∷ record { name = ""; id = "llama" } ∷ [];
      },
    )
    ∷ []

abbrev counted : Numbers
counted = record { created_of = λ m. 7; size_of = λ m. 8 }

handle_list_models-Lists_example :
    Lists "llama"
      (north ∷ [])
      up_north
      (handle_list_models counted (some eve) (north ∷ []) [] up_north)
handle_list_models-Lists_example =
    handle_list_models-Lists counted eve (north ∷ []) [] up_north "llama"
