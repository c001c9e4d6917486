-- ===== src/Examples/Requests.antt =====
-- Routing, the middleware, the engine forms and the usage panel at concrete inputs (routing.go, main.go, csrf.go,
-- handlers.go, usage.go).
use gateway.Prelude.{
  ◌≢◌, refl, String, str_eq, eq_iff, true, false, Option, none, some, List, [], ◌∷◌, ◌==◌,
  if◌then◌else◌, nat_key, arith,
}
use gateway.Engine.{EngineConfig, ollama_adapter, EngineCache}
use gateway.Routing.{
  RouteIndex, Answer, Routing, build_route_index, select_engine, route_named, current_route_index,
  rebuild_route_index, is_stale, first_adapter, miss, merge_answers, merge_answer, append_models,
  append_id, sort, insert_sorted,
}
use gateway.Routing.Selection.{
  Used, Chosen, Absent, build-IsSorted, select-not_found, select-Chosen,
}
use gateway.Users.{User}
use gateway.Http.{
  Request, Handler, writes_header, writes, flushes, text, csrf_protected, middleware_chain,
  recover_run, api_key_from_request, is_active, log_run, csrf_submitted,
}
use gateway.Http.Guards.{IsAuthenticated, chain-IsAuthenticated, HasCsrfToken, chain-HasCsrfToken}
use gateway.Http.Statuses.{HasOneStatus, IsFinal, CommitsFirst, chain-HasOneStatus}

abbrev east : EngineConfig
east = record {
  id = 1;
  name = "east";
  type = "ollama";
  base_url = "east";
  port = 11434;
  api_key = "";
}

abbrev west : EngineConfig
west = record {
  id = 2;
  name = "west";
  type = "ollama";
  base_url = "west";
  port = 11434;
  api_key = "";
}

abbrev both : EngineCache
both = record {
  engines = east ∷ west ∷ [];
  adapters = λ id.
      if id == 1
      then some (ollama_adapter east 8)
      else if id == 2
      then some (ollama_adapter west 8)
      else none;
}

abbrev answers : List Answer
answers =
    record { engine = 2; up = true; models = "llama" ∷ "qwen" ∷ [] }
    ∷ record { engine = 1; up = true; models = "qwen" ∷ [] }
    ∷ []

abbrev cold : Routing
cold = record { index = none; gen = 0; refreshing = false }

no_index : (i : RouteIndex) → cold.index ≢ some i
no_index i h = cc

false_ne_true : false ≢ true
false_ne_true e = cc

abbrev qwen : String
qwen = "qwen"

abbrev mistral : String
mistral = "mistral"

select-Chosen_example :
    (idx : RouteIndex) × Used cold (build_route_index 7 answers) idx
    × Chosen both "qwen" idx (ollama_adapter east 8)
unfolding select_engine route_named current_route_index rebuild_route_index build_route_index
    merge_answers merge_answer append_models append_id sort insert_sorted first_adapter
select-Chosen_example =
    select-Chosen both "qwen" 8 (build_route_index 7 answers) cold (ollama_adapter east 8)
      (λ e. false_ne_true ((eq_iff qwen "").1 e)) (λ i h. absurd (no_index i h))
      (build-IsSorted 7 answers) refl

select-not_found_example :
    (mistral ≢ "")
    × ((idx : RouteIndex) × Absent both mistral 8 cold (build_route_index 7 answers) idx)
unfolding select_engine route_named current_route_index rebuild_route_index build_route_index
    merge_answers merge_answer append_models append_id sort insert_sorted first_adapter miss
    is_stale
select-not_found_example = select-not_found both mistral 8 (build_route_index 7 answers) cold refl

abbrev no_users : String → Option User
no_users key =
    if str_eq key "k1"
    then some (record { id = 1; name = "ann"; api_key = "h1"; status = "active"; rate_limit = 2 })
    else none

abbrev chat : Request
chat = record {
  method = "POST";
  path = "/v1/messages";
  authorization = "";
  x_api_key = "k1";
  csrf_header = "";
  csrf_form = "";
  session_csrf = "";
}

abbrev toggle : Request
toggle = record {
  method = "POST";
  path = "/toggle/7";
  authorization = "";
  x_api_key = "";
  csrf_header = "";
  csrf_form = "t0k";
  session_csrf = "t0k";
}

abbrev breaks_down : Handler
breaks_down = record {
  calls = writes_header 201 ∷ writes (text "half") ∷ flushes ∷ [];
  panics = true;
}

chain-IsAuthenticated_example : IsAuthenticated no_users chat
unfolding middleware_chain recover_run api_key_from_request is_active csrf_protected log_run
chain-IsAuthenticated_example = chain-IsAuthenticated no_users chat breaks_down refl refl refl

chain-HasCsrfToken_example : HasCsrfToken toggle
unfolding middleware_chain csrf_protected recover_run csrf_submitted
chain-HasCsrfToken_example = chain-HasCsrfToken no_users toggle breaks_down refl refl

chain-HasOneStatus_example : HasOneStatus (middleware_chain no_users chat breaks_down)
unfolding IsFinal CommitsFirst
chain-HasOneStatus_example =
    chain-HasOneStatus no_users chat breaks_down (omega arith, (tt, (tt, tt))) tt
