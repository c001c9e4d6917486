-- ===== src/OpenAi/Streaming.antt =====
-- A streamed answer against a whole one (openai.go: ollamaToOpenAI, formatStreamChunk; engine.go:
-- ollamaStream.Recv).
use gateway.Prelude.{
  ℕ, suc, ◌+◌, ◌<◌, ◌≡◌, refl, ap, ap₂, ◌∙◌, Bool, true, false, Option, none, some, List, [], ◌∷◌,
  length, ltb, lt→ltb, map, if◌then◌else◌, arith,
}
use gateway.Text.{Bytes}
use gateway.Json.{Fields, get, as_bool, as_fields}
use gateway.Stream.{
  ToolCall, OllamaChunk, StreamToolCall, Chunk, FinishReason, finish_stop as stop,
  finish_length as too_long, finish_tool_calls as calls_tools, object, number_from,
  format_stream_chunk, renumber, with_finish, payload_of, meta_of, frame, drain, new_ollama_stream,
  ollama_finish_reason as chunk_finish_reason,
}
use gateway.Stream.Receiving.{received_last, drain-received}
use gateway.OpenAi.Response.{
  Codec, ChatCompletion, finish_stop, finish_length, finish_tool_calls, is_none, role_of,
  ollama_to_open_ai, chunk_of,
}

abbrev pub finish_text : FinishReason → Bytes
finish_text stop = finish_stop
finish_text too_long = finish_length
finish_text calls_tools = finish_tool_calls

abbrev pub finish_option : Option FinishReason → Option Bytes
finish_option none = none
finish_option (some f) = some (finish_text f)

-- What a client assembles from the one chunk of an answer.
abbrev pub assembled : Bytes → Chunk → ChatCompletion
assembled role c = record {
  model = c.model;
  choices =
      record {
        message = record {
          role = role;
          content = c.content;
          tool_calls = map (λ (t : StreamToolCall). t.call) c.tool_calls;
        };
        finish_reason = finish_option c.finish_reason;
      }
      ∷ [];
  usage = elim c.usage [
    | none ↦ record { prompt_tokens = 0; completion_tokens = 0; total_tokens = 0 }
    | some u ↦ record { prompt_tokens = u.0; completion_tokens = u.1; total_tokens = u.0 + u.1 }
  ];
}

calls-renumber :
    (i j : ℕ) (cs : List ToolCall)
    → map (λ (t : StreamToolCall). t.call) (renumber i (number_from j cs)) ≡ cs
unfolding renumber number_from
calls-renumber i j [] = refl
calls-renumber i j (c ∷ cs) = ap (λ l. c ∷ l) (calls-renumber (i + 1) (j + 1) cs)

finish_of :
    (calls : List ToolCall) (limited : Bool)
    → finish_option (
        if ltb 0 (0 + length (number_from 0 calls))
        then some calls_tools
        else some (if limited then too_long else stop))
      ≡ some (
          if is_none calls
          then if limited then finish_length else finish_stop
          else finish_tool_calls)
unfolding is_none number_from
finish_of [] true = refl
finish_of [] false = refl
finish_of (c ∷ cs) limited =
    let e : ltb 0 (0 + suc (length (number_from 1 cs))) ≡ true = lt→ltb _ _ (omega arith) in
    simp e refl

completion_of : Bytes → OllamaChunk → List ToolCall → Option Bytes → ChatCompletion
completion_of role c calls finish = record {
  model = c.model;
  choices =
      record {
        message = record { role = role; content = c.content; tool_calls = calls };
        finish_reason = finish;
      }
      ∷ [];
  usage = record {
    prompt_tokens = c.prompt_eval_count;
    completion_tokens = c.eval_count;
    total_tokens = c.prompt_eval_count + c.eval_count;
  };
}

assembled-payload_of :
    (role : Bytes) (c : OllamaChunk)
    → c.is_done ≡ true
    → assembled role (payload_of true 0 c)
      ≡ completion_of role c c.tool_calls (
          some (
            if is_none c.tool_calls
            then if c.length_limited then finish_length else finish_stop
            else finish_tool_calls))
unfolding payload_of format_stream_chunk with_finish chunk_finish_reason completion_of
assembled-payload_of role c done =
    ap (λ (d : OllamaChunk). assembled role (payload_of true 0 d))
      (λ i. record c { is_done = done i })
    ∙ ap₂ (completion_of role c) (calls-renumber 0 0 c.tool_calls)
        (finish_of c.tool_calls c.length_limited)

module _ (codec : Codec) where
  -- An answer that the engine gives in one final object reaches a streaming client in one chunk, and
  -- what is assembled from it has the content, calls, finish reason and usage of the whole answer.
  pub drain-ollama_to_open_ai :
      (answer : Fields) (n : ℕ)
      → as_bool (get "done" answer) ≡ true
      → 1 < n
      → (c : Chunk) × (drain n (new_ollama_stream (object (chunk_of codec answer) ∷ []) false)
          ≡ some (frame c (meta_of c) ∷ []))
        × (assembled (role_of (as_fields (get "message" answer))) c
            ≡ ollama_to_open_ai codec answer)
  unfolding ollama_to_open_ai chunk_of completion_of
  drain-ollama_to_open_ai answer n done h = (
    payload_of true 0 (chunk_of codec answer),
    drain-received (object (chunk_of codec answer) ∷ []) false n (omega (arith, h))
        ∙ ap some (received_last false true 0 (chunk_of codec answer) [] done),
    assembled-payload_of (role_of (as_fields (get "message" answer))) (chunk_of codec answer) done,
  )
