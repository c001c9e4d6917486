-- ===== src/Stream.antt =====
-- Streaming completions: ollamaStream.Recv and deltaAuditText (engine.go), formatStreamChunk (openai.go),
-- streamCompletion (api_handlers.go) and applyMeta (request_detail.go). A line of the engine enters as
-- json.Unmarshal leaves it, a field of another type being its zero value. Text is its bytes.
pub mod Receiving
pub mod Completion
use gateway.Prelude.{
  ℕ, zero, suc, ◌+◌, ◌<◌, Bool, true, false, not, ◌&&◌, Option, none, some, List, [], ◌∷◌, ◌++◌,
  map, ltb, ◌==◌, if◌then◌else◌, length,
}
use gateway.Text.{Bytes, StreamAudit, write}

-- An OpenAI tool call, its id given or minted.
pub record ToolCall : Type 0 where
  pub id : Bytes
  pub name : Bytes
  pub arguments : Bytes

-- One object of Ollama's stream. `length_limited` says that done_reason is "length".
pub record OllamaChunk : Type 0 where
  pub is_done : Bool
  pub content : Bytes
  pub tool_calls : List ToolCall
  pub length_limited : Bool
  pub model : Bytes
  pub prompt_eval_count : ℕ
  pub eval_count : ℕ

pub data Line : Type 0 where
  blank : Line
  unparsable : Line
  object : OllamaChunk → Line

pub data FinishReason : Type 0 where
  finish_stop finish_length finish_tool_calls : FinishReason

pub record StreamToolCall : Type 0 where
  pub index : ℕ
  pub call : ToolCall

-- The choice, model and usage of a ChatCompletionChunk.
pub record Chunk : Type 0 where
  pub has_role : Bool
  pub content : Bytes
  pub tool_calls : List StreamToolCall
  pub finish_reason : Option FinishReason
  pub model : Bytes
  pub usage : Option (ℕ × ℕ)

unfoldable pub number_from : ℕ → List ToolCall → List StreamToolCall
number_from i [] = []
number_from i (c ∷ cs) = record { index = i; call = c } ∷ number_from (i + 1) cs

unfoldable pub ollama_finish_reason : OllamaChunk → FinishReason
ollama_finish_reason c = if c.length_limited then finish_length else finish_stop

unfoldable pub format_stream_chunk : OllamaChunk → Bool → Chunk
unfolding number_from ollama_finish_reason
format_stream_chunk c is_first = record {
  has_role = is_first;
  content = if is_first then c.content else if c.is_done then [] else c.content;
  tool_calls = number_from 0 c.tool_calls;
  finish_reason = if c.is_done then some (ollama_finish_reason c) else none;
  model = c.model;
  usage = if c.is_done then some (c.prompt_eval_count, c.eval_count) else none;
}

pub record ChunkMeta : Type 0 where
  pub audit_text : Bytes
  pub model : Bytes
  pub finish : Option FinishReason
  pub in_tokens : ℕ
  pub out_tokens : ℕ

-- "\n[tool_call " and "] "
abbrev pub tool_call_open : Bytes
tool_call_open = 10 ∷ 91 ∷ 116 ∷ 111 ∷ 111 ∷ 108 ∷ 95 ∷ 99 ∷ 97 ∷ 108 ∷ 108 ∷ 32 ∷ []

abbrev pub tool_call_close : Bytes
tool_call_close = 93 ∷ 32 ∷ []

unfoldable pub call_audit_text : ToolCall → Bytes
call_audit_text c = elim c.name [
  | [] ↦ c.arguments
  | b ∷ rest ↦ tool_call_open ++ (b ∷ rest) ++ tool_call_close ++ c.arguments
]

unfoldable pub calls_audit_text : List StreamToolCall → Bytes
unfolding call_audit_text
calls_audit_text [] = []
calls_audit_text (c ∷ cs) = call_audit_text c.call ++ calls_audit_text cs

unfoldable pub delta_audit_text : Chunk → Bytes
unfolding calls_audit_text
delta_audit_text c = c.content ++ calls_audit_text c.tool_calls

-- The loop that renumbers a chunk's calls from the count of the calls sent before.
unfoldable pub renumber : ℕ → List StreamToolCall → List StreamToolCall
renumber n [] = []
renumber n (c ∷ cs) = record c { index = n } ∷ renumber (n + 1) cs

unfoldable pub with_finish : ℕ → Chunk → Chunk
with_finish calls c = record c {
  finish_reason = elim c.finish_reason [
    | none ↦ none
    | some reason ↦ if ltb 0 calls then some finish_tool_calls else some reason
  ];
}

-- The payload that Recv makes of an object, after `sent` calls.
unfoldable pub payload_of : Bool → ℕ → OllamaChunk → Chunk
unfolding format_stream_chunk renumber with_finish
payload_of is_first sent c =
    let out = format_stream_chunk c is_first in
    with_finish (sent + length out.tool_calls)
      (record out { tool_calls = renumber sent out.tool_calls })

unfoldable pub meta_of : Chunk → ChunkMeta
unfolding delta_audit_text
meta_of c = record {
  audit_text = delta_audit_text c;
  model = c.model;
  finish = c.finish_reason;
  in_tokens = elim c.usage [ none ↦ 0 | some u ↦ u.0 ];
  out_tokens = elim c.usage [ none ↦ 0 | some u ↦ u.1 ];
}

-- The state of an ollamaStream over the lines that its scanner has left; `scan_fails` says that the
-- scanner ends with an error.
pub record OllamaStream : Type 0 where
  pub lines : List Line
  pub scan_fails : Bool
  pub is_first : Bool
  pub done : Bool
  pub tool_calls : ℕ

pub data Received : Type 0 where
  eof : Received
  failed : Received
  frame : Chunk → ChunkMeta → Received

unfoldable pub recv_object : OllamaChunk → List Line → OllamaStream → Received × OllamaStream
unfolding payload_of meta_of
recv_object c rest s = (
  frame (payload_of s.is_first s.tool_calls c) (meta_of (payload_of s.is_first s.tool_calls c)),
  record s {
    lines = rest;
    is_first = false;
    done = c.is_done;
    tool_calls = s.tool_calls + length c.tool_calls;
  },
)

-- The loop of Recv.
unfoldable pub recv_lines : List Line → OllamaStream → Received × OllamaStream
unfolding recv_object
recv_lines [] s = (if s.scan_fails then failed else eof, record s { lines = [] })
recv_lines (blank ∷ rest) s = recv_lines rest s
recv_lines (unparsable ∷ rest) s = recv_lines rest s
recv_lines (object c ∷ rest) s = recv_object c rest s

unfoldable pub recv : OllamaStream → Received × OllamaStream
unfolding recv_lines
recv s = if s.done then (eof, s) else recv_lines s.lines s

unfoldable pub next_received : Received → Option (List Received) → Option (List Received)
next_received eof rest = some []
next_received failed rest = some (failed ∷ [])
next_received (frame c m) none = none
next_received (frame c m) (some rs) = some (frame c m ∷ rs)

-- What the loop of streamCompletion receives, up to io.EOF or an error. `none` is out of fuel.
unfoldable pub drain : ℕ → OllamaStream → Option (List Received)
unfolding recv next_received
drain zero s = none
drain (suc n) s = let rest = drain n (recv s).1 in next_received (recv s).0 rest

-- The stream that StreamChat opens.
unfoldable pub new_ollama_stream : List Line → Bool → OllamaStream
new_ollama_stream lines scan_fails = record {
  lines = lines;
  scan_fails = scan_fails;
  is_first = true;
  done = false;
  tool_calls = 0;
}

-- The frames that streamCompletion writes.
pub data Frame : Type 0 where
  payload : Chunk → Frame
  error_frame : Frame
  done_frame : Frame

pub data Outcome : Type 0 where
  client_disconnected stream_interrupted : Outcome

-- What the request detail keeps of the stream.
pub record Detail : Type 0 where
  pub model_served : Bytes
  pub in_tokens : ℕ
  pub out_tokens : ℕ
  pub stop_reason : Option FinishReason
  pub has_first_token : Bool

unfoldable pub is_blank : Bytes → Bool
is_blank [] = true
is_blank (b ∷ rest) = false

-- setFirstToken, then applyMeta.
unfoldable pub apply_meta : ChunkMeta → Detail → Detail
unfolding is_blank
apply_meta m d = record {
  model_served = if is_blank m.model then d.model_served else m.model;
  in_tokens = if m.in_tokens == 0 && m.out_tokens == 0 then d.in_tokens else m.in_tokens;
  out_tokens = if m.in_tokens == 0 && m.out_tokens == 0 then d.out_tokens else m.out_tokens;
  stop_reason = elim m.finish [ none ↦ d.stop_reason | some reason ↦ some reason ];
  has_first_token = true;
}

-- A streamed response: the frames that reached the client, the audit buffer, the outcome, the detail.
pub record Streamed : Type 0 where
  pub sent : List Frame
  pub audit : StreamAudit
  pub outcome : Option Outcome
  pub detail : Detail

unfoldable pub send : Frame → Streamed → Streamed
send f t = record t { sent = t.sent ++ f ∷ [] }

unfoldable pub relay : Chunk → ChunkMeta → Streamed → Streamed
unfolding send apply_meta
relay c m t = record (send (payload c) t) {
  audit = write t.audit m.audit_text;
  detail = apply_meta m t.detail;
}

-- The loop of streamCompletion after the headers. `writes_ok n` says whether the n-th payload can be
-- written.
unfoldable pub stream_completion : (ℕ → Bool) → ℕ → List Received → Streamed → Streamed
unfolding relay send
stream_completion writes_ok n [] t = send done_frame t
stream_completion writes_ok n (eof ∷ rs) t = send done_frame t
stream_completion writes_ok n (failed ∷ rs) t =
    send done_frame (send error_frame (record t { outcome = some stream_interrupted }))
stream_completion writes_ok n (frame c m ∷ rs) t =
    let rest = stream_completion writes_ok (n + 1) rs (relay c m t) in
    if writes_ok n then rest else record t { outcome = some client_disconnected }

abbrev pub no_detail : Detail
no_detail = record {
  model_served = [];
  in_tokens = 0;
  out_tokens = 0;
  stop_reason = none;
  has_first_token = false;
}

-- The state at the first Recv, under cfg.MaxMsgLen.
abbrev pub new_streamed : ℕ → Streamed
new_streamed max_msg_len = record {
  sent = [];
  audit = record { limit = max_msg_len; buf = [] };
  outcome = none;
  detail = no_detail;
}
