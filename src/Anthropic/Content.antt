-- ===== src/Anthropic/Content.antt =====
-- The events carry the engine's text, tool arguments, finish reason and usage, and nothing else.
use gateway.Prelude.{
  ℕ, String, str_eq, ◌≡◌, refl, ap, ◌∙◌, Option, none, some, List, [], ◌∷◌, ◌++◌, if◌then◌else◌,
  arith, append-nil,
}
use gateway.Anthropic.{
  SseEvent, text_delta, input_json_delta, ToolFragment, Choice, StreamChunk, AnthropicStream,
  new_anthropic_stream, start, close_block, enter_text, on_content, enter_tool, on_tool, on_tools,
  on_choice, on_choices, chunk, chunks, end_stream, reply,
}

-- What a client collects: the text, and the tool arguments.
abbrev pub texts : List SseEvent → List String
texts [] = []
texts (text_delta i t ∷ es) = t ∷ texts es
texts (_ ∷ es) = texts es

abbrev pub jsons : List SseEvent → List String
jsons [] = []
jsons (input_json_delta i t ∷ es) = t ∷ jsons es
jsons (_ ∷ es) = jsons es

-- What an engine sent.
abbrev pub unless_empty : String → List String
unless_empty t = if str_eq t "" then [] else t ∷ []

abbrev pub fragments : List ToolFragment → List String
fragments [] = []
fragments (tc ∷ tcs) = unless_empty tc.arguments ++ fragments tcs

abbrev pub choice_texts : List Choice → List String
choice_texts [] = []
choice_texts (c ∷ cs) = unless_empty c.content ++ choice_texts cs

abbrev pub choice_jsons : List Choice → List String
choice_jsons [] = []
choice_jsons (c ∷ cs) = fragments c.tool_calls ++ choice_jsons cs

abbrev pub sent_texts : List (Option StreamChunk) → List String
sent_texts [] = []
sent_texts (none ∷ ps) = sent_texts ps
sent_texts (some c ∷ ps) = choice_texts c.choices ++ sent_texts ps

abbrev pub sent_jsons : List (Option StreamChunk) → List String
sent_jsons [] = []
sent_jsons (none ∷ ps) = sent_jsons ps
sent_jsons (some c ∷ ps) = choice_jsons c.choices ++ sent_jsons ps

texts-append : (es fs : List SseEvent) → texts (es ++ fs) ≡ texts es ++ texts fs
texts-append [] fs = refl
texts-append (text_delta i t ∷ es) fs = ap (λ ts. t ∷ ts) (texts-append es fs)
texts-append (_ ∷ es) fs = texts-append es fs

jsons-append : (es fs : List SseEvent) → jsons (es ++ fs) ≡ jsons es ++ jsons fs
jsons-append [] fs = refl
jsons-append (input_json_delta i t ∷ es) fs = ap (λ ts. t ∷ ts) (jsons-append es fs)
jsons-append (_ ∷ es) fs = jsons-append es fs

on_content-texts : (s : AnthropicStream) (t : String) → texts (on_content s t).1 ≡ unless_empty t
unfolding on_content enter_text close_block
on_content-texts s t = ground arith

on_content-jsons : (s : AnthropicStream) (t : String) → jsons (on_content s t).1 ≡ []
unfolding on_content enter_text close_block
on_content-jsons s t = ground arith

module _ (mint : ℕ → String) where
  on_tool-texts : (s : AnthropicStream) (tc : ToolFragment) → texts (on_tool mint s tc).1 ≡ []
  unfolding on_tool enter_tool close_block
  on_tool-texts s tc = ground arith

  on_tool-jsons :
      (s : AnthropicStream) (tc : ToolFragment)
      → jsons (on_tool mint s tc).1 ≡ unless_empty tc.arguments
  unfolding on_tool enter_tool close_block
  on_tool-jsons s tc = ground arith

  on_tools-texts :
      (tcs : List ToolFragment) (s : AnthropicStream) → texts (on_tools mint s tcs).1 ≡ []
  unfolding on_tools
  on_tools-texts [] s = refl
  on_tools-texts (tc ∷ tcs) s = simp (texts-append, on_tool-texts, on_tools-texts tcs)

  on_tools-jsons :
      (tcs : List ToolFragment) (s : AnthropicStream)
      → jsons (on_tools mint s tcs).1 ≡ fragments tcs
  unfolding on_tools
  on_tools-jsons [] s = refl
  on_tools-jsons (tc ∷ tcs) s = simp (jsons-append, on_tool-jsons, on_tools-jsons tcs)

  on_choices-texts :
      (cs : List Choice) (s : AnthropicStream) → texts (on_choices mint s cs).1 ≡ choice_texts cs
  unfolding on_choices on_choice
  on_choices-texts [] s = refl
  on_choices-texts (c ∷ cs) s =
      simp (
        texts-append,
        on_content-texts,
        on_tools-texts c.tool_calls,
        on_choices-texts cs,
        append-nil,
      )

  on_choices-jsons :
      (cs : List Choice) (s : AnthropicStream) → jsons (on_choices mint s cs).1 ≡ choice_jsons cs
  unfolding on_choices on_choice
  on_choices-jsons [] s = refl
  on_choices-jsons (c ∷ cs) s =
      simp (jsons-append, on_content-jsons, on_tools-jsons c.tool_calls, on_choices-jsons cs)

  chunks-texts :
      (ps : List (Option StreamChunk)) (s : AnthropicStream)
      → texts (chunks mint s ps).1 ≡ sent_texts ps
  unfolding chunks chunk
  chunks-texts [] s = refl
  chunks-texts (none ∷ ps) s = chunks-texts ps s
  chunks-texts (some c ∷ ps) s = simp (texts-append, on_choices-texts c.choices, chunks-texts ps)

  chunks-jsons :
      (ps : List (Option StreamChunk)) (s : AnthropicStream)
      → jsons (chunks mint s ps).1 ≡ sent_jsons ps
  unfolding chunks chunk
  chunks-jsons [] s = refl
  chunks-jsons (none ∷ ps) s = chunks-jsons ps s
  chunks-jsons (some c ∷ ps) s = simp (jsons-append, on_choices-jsons c.choices, chunks-jsons ps)

end-texts : (s : AnthropicStream) → texts (end_stream s).1 ≡ []
unfolding end_stream close_block
end-texts s = ground arith

end-jsons : (s : AnthropicStream) → jsons (end_stream s).1 ≡ []
unfolding end_stream close_block
end-jsons s = ground arith

-- The text and the tool arguments of a reply are those that the engine sent, in order.
pub reply-texts :
    (mint : ℕ → String) (id model : String) (payloads : List (Option StreamChunk))
    → let events = reply mint (new_anthropic_stream id model) payloads in
      (texts events ≡ sent_texts payloads) × (jsons events ≡ sent_jsons payloads)
unfolding reply start
reply-texts mint id model payloads =
    let s = (start (new_anthropic_stream id model)).0 in
    (
      simp (texts-append, chunks-texts mint payloads s)
          (ap (λ ts. sent_texts payloads ++ ts) (end-texts (chunks mint s payloads).0)
            ∙ append-nil _),
      simp (jsons-append, chunks-jsons mint payloads s)
          (ap (λ ts. sent_jsons payloads ++ ts) (end-jsons (chunks mint s payloads).0)
            ∙ append-nil _),
    )
