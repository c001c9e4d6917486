-- ===== src/Http.antt =====
-- The middleware stack (main.go: statusRecorder, apiAuthMiddleware, requestLoggingMiddleware,
-- recoveryMiddleware, middlewareChain; csrf.go; metrics.go: metricsMiddleware, metricsTokenValid).
-- A handler is the calls it makes on the response and whether it panics after them; one that takes the
-- connection over with Hijack is not in the model. The recorder holds what net/http has received: the
-- committed status and the body.
pub mod Guards
pub mod Statuses
use gateway.Prelude.{
  ℕ, ◌+◌, ◌≤◌, String, str_eq, starts_with, slice, len, Bool, true, false, not, ◌&&◌, ◌||◌, Option,
  none, some, List, [], ◌∷◌, ◌++◌, ◌==◌, ltb, leb, if◌then◌else◌,
}
use gateway.Users.{User, active}

pub record Request : Type 0 where
  pub method : String
  pub path : String
  pub authorization : String
  pub x_api_key : String
  pub csrf_header : String
  pub csrf_form : String
  pub session_csrf : String

pub data Chunk : Type 0 where
  text : String → Chunk
  error_text : Chunk
  error_envelope : Chunk
  error_frame : Chunk
  done_frame : Chunk

-- The statusRecorder over its ResponseWriter. `wire` is the status that net/http has sent.
pub record Recorder : Type 0 where
  pub status : ℕ
  pub wrote : Bool
  pub content_type : String
  pub wire : Option ℕ
  pub body : List Chunk

unfoldable pub new_status_recorder : Recorder
new_status_recorder = record {
  status = 200;
  wrote = false;
  content_type = "";
  wire = none;
  body = [];
}

-- net/http: the first final status is sent, an informational one is sent ahead of it, a later one is
-- ignored.
unfoldable pub send_header : ℕ → Option ℕ → Option ℕ
send_header code none = if ltb code 200 && not (code == 101) then none else some code
send_header code (some sent) = some sent

-- net/http: a body without a status has status 200.
unfoldable pub send_body : Option ℕ → Option ℕ
send_body none = some 200
send_body (some sent) = some sent

unfoldable pub write_header : ℕ → Recorder → Recorder
write_header code r = record r {
  status = if r.wrote then r.status else code;
  wrote = true;
  wire = send_header code r.wire;
}

-- Write and ReadFrom.
unfoldable pub write : Chunk → Recorder → Recorder
write c r = record r { wrote = true; wire = send_body r.wire; body = r.body ++ c ∷ [] }

pub data Call : Type 0 where
  sets_content_type : String → Call
  writes_header : ℕ → Call
  writes : Chunk → Call
  flushes : Call

-- Flush: net/http sends what it has, with status 200 if it has no status, and `wrote` is not set.
unfoldable pub flush : Recorder → Recorder
flush r = record r { wire = send_body r.wire }

unfoldable pub apply_call : Call → Recorder → Recorder
unfolding write_header write flush
apply_call (sets_content_type t) r = record r { content_type = t }
apply_call (writes_header code) r = write_header code r
apply_call (writes c) r = write c r
apply_call flushes r = flush r

unfoldable pub apply_calls : List Call → Recorder → Recorder
unfolding apply_call
apply_calls [] r = r
apply_calls (c ∷ cs) r = apply_calls cs (apply_call c r)

pub record Handler : Type 0 where
  pub calls : List Call
  pub panics : Bool

-- What a layer hands to the one around it: the response, whether a panic is unwinding, whether the
-- handler ran, the user in the context, the status in the audit row and the panics counted.
pub record Run : Type 0 where
  pub response : Recorder
  pub panicking : Bool
  pub handled : Bool
  pub logged : Option ℕ
  pub panics_counted : ℕ

abbrev pub Layer : Type 0
Layer = Recorder → Run

unfoldable pub serve_handler : Handler → Recorder → Run
serve_handler h r = record {
  response = apply_calls h.calls r;
  panicking = h.panics;
  handled = true;
  logged = none;
  panics_counted = 0;
}

-- The type that jsonResponse and http.Error give an answer.
unfoldable pub error_type : Chunk → String
error_type error_envelope = "application/json"
error_type _ = "text/plain; charset=utf-8"

-- jsonResponse and http.Error.
unfoldable pub write_error : ℕ → Chunk → Recorder → Recorder
unfolding error_type
write_error code c r = write c (write_header code (record r { content_type = error_type c }))

-- A response that a middleware gives in place of the layers below it.
unfoldable pub answer : ℕ → Chunk → Recorder → Run
answer code c r = record {
  response = write_error code c r;
  panicking = false;
  handled = false;
  logged = none;
  panics_counted = 0;
}

abbrev pub is_v1 : Request → Bool
is_v1 q = starts_with q.path "/v1/"

abbrev pub is_messages : Request → Bool
is_messages q = starts_with q.path "/v1/messages"

unfoldable pub panic_status : Recorder → ℕ
panic_status r = if r.wrote then r.status else 500

-- apiKeyFromRequest: the bearer token, and x-api-key on the Anthropic routes alone.
unfoldable pub api_key_from_request : Request → String
api_key_from_request q =
    if starts_with q.authorization "Bearer "
    then slice q.authorization 7 (len q.authorization)
    else if is_messages q
    then q.x_api_key
    else ""

-- csrfProtected
unfoldable pub csrf_protected : Request → Bool
csrf_protected q =
    if str_eq q.method "GET"
      || (str_eq q.method "HEAD" || (str_eq q.method "OPTIONS" || str_eq q.method "TRACE"))
    then false
    else not (is_v1 q)

-- The token that csrfMiddleware reads: the header, else the form field.
unfoldable pub csrf_submitted : Request → String
csrf_submitted q = if str_eq q.csrf_header "" then q.csrf_form else q.csrf_header

unfoldable pub log_run : Run → Run
log_run u = record u {
  logged = some (if u.panicking then panic_status u.response else u.response.status);
}

unfoldable pub request_logging : Request → Layer → Layer
request_logging q next r = if is_v1 q then log_run (next r) else next r

unfoldable pub csrf : Request → Layer → Layer
csrf q next r =
    if csrf_protected q
    then if str_eq q.session_csrf "" || not (str_eq q.session_csrf (csrf_submitted q))
      then answer 403 error_text r
      else next r
    else next r

-- The user that getUserByAPIKey found, where it is an active one.
unfoldable pub is_active : Option User → Bool
is_active none = false
is_active (some u) = str_eq u.status active

unfoldable pub api_auth : (String → Option User) → Request → Layer → Layer
api_auth lookup q next r =
    if not (is_v1 q) || str_eq q.method "OPTIONS"
    then next r
    else if str_eq (api_key_from_request q) ""
    then answer 401 error_envelope r
    else if is_active (lookup (api_key_from_request q))
    then next r
    else answer 401 error_envelope r

-- writePanicResponse
unfoldable pub write_panic_response : Request → Recorder → Recorder
unfolding write_error
write_panic_response q r =
    if r.wrote
    then if starts_with r.content_type "text/event-stream"
      then write done_frame (write error_frame r)
      else r
    else if is_v1 q
    then write_error 500 error_envelope r
    else write_error 500 error_text r

unfoldable pub recover_run : Request → Run → Run
recover_run q u =
    if u.panicking
    then record u {
      response = write_panic_response q u.response;
      panicking = false;
      panics_counted = u.panics_counted + 1;
    }
    else u

unfoldable pub recovery : Request → Layer → Layer
recovery q next r = recover_run q (next r)

-- metricsMiddleware: the status it counts.
unfoldable pub metrics_status : Run → ℕ
metrics_status u = if u.panicking then panic_status u.response else u.response.status

-- middlewareChain from recovery inwards, without the headers that corsMiddleware sets.
unfoldable pub middleware_chain : (String → Option User) → Request → Handler → Run
unfolding recovery api_auth csrf request_logging serve_handler
middleware_chain lookup q h =
    recovery q (api_auth lookup q (csrf q (request_logging q (serve_handler h))))
      new_status_recorder

-- What the client sees: net/http sends 200 when a handler returns without having written.
unfoldable pub client_status : Run → ℕ
client_status u = elim u.response.wire [ none ↦ 200 | some sent ↦ sent ]

-- metricsTokenValid under cfg.MetricsToken.
unfoldable pub metrics_token_valid : String → Request → Bool
metrics_token_valid token q =
    if str_eq token ""
    then false
    else if starts_with q.authorization "Bearer "
    then str_eq (slice q.authorization 7 (len q.authorization)) token
    else false
