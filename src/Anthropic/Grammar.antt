-- ===== src/Anthropic/Grammar.antt =====
-- The events of a reply follow Anthropic's stream grammar.
use gateway.Prelude.{
  ℕ, ◌+◌, ◌-◌, ◌<◌, String, str_eq, ◌≡◌, refl, ◌⊎◌, ◌∙◌, Option, none, some, List, [], ◌∷◌, ◌++◌,
  ◌==◌, if◌then◌else◌, arith, Bool-cases, Option-cases, inl, inr,
}
use gateway.Anthropic.{
  SseEvent, message_start, text_block_start, tool_block_start, text_delta, input_json_delta,
  content_block_stop, message_delta, message_stop, ToolFragment, Choice, Usage, StreamChunk,
  OpenBlock, no_block, text_block, tool_block, AnthropicStream, new_anthropic_stream, start,
  close_block, enter_text, on_content, enter_tool, on_tool, on_tools, with_finish, on_choice,
  on_choices, with_usage, chunk, chunks, end_stream, reply,
}

-- A reader of the stream: before the message, between blocks (with the index of the next one), in a
-- text or tool block, after the message's delta, and after its end.
pub data Reader : Type 0 where
  waiting : Reader
  between : ℕ → Reader
  in_text : ℕ → Reader
  in_tool : ℕ → Reader
  closing : Reader
  finished : Reader

-- The grammar: blocks are opened one at a time with indices from 0 up, every delta fits the open
-- block's kind and index, a block is stopped before the next one, and the message ends with its delta.
abbrev pub read : Reader → SseEvent → Option Reader
read waiting (message_start id model) = some (between 0)
read (between n) (text_block_start i) = if i == n then some (in_text n) else none
read (between n) (tool_block_start i id name) = if i == n then some (in_tool n) else none
read (between n) (message_delta stop usage) = some closing
read (in_text n) (text_delta i text) = if i == n then some (in_text n) else none
read (in_text n) (content_block_stop i) = if i == n then some (between (n + 1)) else none
read (in_tool n) (input_json_delta i text) = if i == n then some (in_tool n) else none
read (in_tool n) (content_block_stop i) = if i == n then some (between (n + 1)) else none
read closing message_stop = some finished
read _ _ = none

abbrev pub read_all : Reader → List SseEvent → Option Reader
read_all r [] = some r
read_all r (e ∷ es) = elim (read r e) [ none ↦ none | some r' ↦ read_all r' es ]

read_all-append :
    (es fs : List SseEvent) (r r' : Reader)
    → read_all r es ≡ some r'
    → read_all r (es ++ fs) ≡ read_all r' fs
read_all-append [] fs r r' h = ground arith
read_all-append (e ∷ es) fs r r' h = elim (Option-cases (read r e)) [
  | inl refused ↦ ground arith
  | inr (q, next) ↦ rw (next, read_all) (read_all-append es fs q r' (rw (next, read_all) at h))
]

-- Two parts that are read one after the other.
read_both :
    (es fs : List SseEvent) (p q r : Reader)
    → read_all p es ≡ some q
    → read_all q fs ≡ some r
    → read_all p (es ++ fs) ≡ some r
read_both es fs p q r h k = read_all-append es fs p q h ∙ k

-- Where the translator's reader stands.
abbrev reader_of : OpenBlock → ℕ → Reader
reader_of no_block n = between n
reader_of text_block n = in_text (n - 1)
reader_of tool_block n = in_tool (n - 1)

-- An open block has an index.
record Sound (s : AnthropicStream) : Type 0 where
  indexed : (s.open_block ≡ no_block) ⊎ (0 < s.blocks)

-- A step of the translator: it stays sound, and the reader follows its events.
record Reads (s : AnthropicStream) (r : AnthropicStream × List SseEvent) : Type 0 where
  sound : Sound r.0
  follows :
      read_all (reader_of s.open_block s.blocks) r.1 ≡ some (reader_of r.0.open_block r.0.blocks)

close-Reads : (s : AnthropicStream) → Sound s → Reads s (close_block s)
unfolding close_block
close-Reads s v = record { sound = record { indexed = ground arith }; follows = ground arith }

enter_text-Reads : (s : AnthropicStream) → Sound s → Reads s (enter_text s)
unfolding enter_text close_block
enter_text-Reads s v = record { sound = record { indexed = ground arith }; follows = ground arith }

enter_tool-Reads :
    (mint : ℕ → String) (s : AnthropicStream) (tc : ToolFragment)
    → Sound s
    → Reads s (enter_tool mint s tc)
unfolding enter_tool close_block
enter_tool-Reads mint s tc v = record {
  sound = record { indexed = ground arith };
  follows = ground arith;
}

entered_text :
    (s : AnthropicStream)
    → Sound s
    → ((enter_text s).0.open_block ≡ text_block) × (0 < (enter_text s).0.blocks)
unfolding enter_text close_block
entered_text s v = ground arith

entered_tool :
    (mint : ℕ → String) (s : AnthropicStream) (tc : ToolFragment)
    → Sound s
    → ((enter_tool mint s tc).0.open_block ≡ tool_block) × (0 < (enter_tool mint s tc).0.blocks)
unfolding enter_tool close_block
entered_tool mint s tc v = ground arith

-- Staying, and taking two steps.
stay : (s : AnthropicStream) → Sound s → Reads s (s, [])
stay s v = record { sound = v; follows = refl }

both :
    (s t u : AnthropicStream) (es fs : List SseEvent)
    → Reads s (t, es)
    → Reads t (u, fs)
    → Reads s (u, es ++ fs)
both s t u es fs p q = record {
  sound = q.sound;
  follows = read_both es fs _ _ _ p.follows q.follows;
}

text-Reads :
    (s : AnthropicStream) (text : String)
    → s.open_block ≡ text_block
    → 0 < s.blocks
    → Reads s (s, text_delta (s.blocks - 1) text ∷ [])
text-Reads s text o h = record { sound = record { indexed = inr h }; follows = ground arith }

json-Reads :
    (s : AnthropicStream) (text : String)
    → s.open_block ≡ tool_block
    → 0 < s.blocks
    → Reads s (s, input_json_delta (s.blocks - 1) text ∷ [])
json-Reads s text o h = record { sound = record { indexed = inr h }; follows = ground arith }

on_content-Reads : (s : AnthropicStream) (text : String) → Sound s → Reads s (on_content s text)
unfolding on_content
on_content-Reads s text v = elim (Bool-cases (str_eq text "")) [
  | inl nothing ↦ rw nothing (stay s v)
  | inr some_text ↦
      let (o, h) = entered_text s v in
      rw some_text (both s _ _ _ _ (enter_text-Reads s v) (text-Reads (enter_text s).0 text o h))
]

module _ (mint : ℕ → String) where
  on_tool-Reads : (s : AnthropicStream) (tc : ToolFragment) → Sound s → Reads s (on_tool mint s tc)
  unfolding on_tool
  on_tool-Reads s tc v = elim (Bool-cases (str_eq tc.arguments "")) [
    | inl nothing ↦ rw nothing (enter_tool-Reads mint s tc v)
    | inr some_text ↦
        let (o, h) = entered_tool mint s tc v in
        rw some_text (
          both s _ _ _ _ (enter_tool-Reads mint s tc v)
            (json-Reads (enter_tool mint s tc).0 tc.arguments o h))
  ]

  on_tools-Reads :
      (tcs : List ToolFragment) (s : AnthropicStream) → Sound s → Reads s (on_tools mint s tcs)
  unfolding on_tools
  on_tools-Reads [] s v = stay s v
  on_tools-Reads (tc ∷ tcs) s v =
      let one = on_tool-Reads s tc v in
      both s _ _ _ _ one (on_tools-Reads tcs (on_tool mint s tc).0 one.sound)

  with_finish-Reads :
      (s t : AnthropicStream) (es : List SseEvent) (f : Option String)
      → Reads s (t, es)
      → Reads s (with_finish mint t f, es)
  with_finish-Reads s t es none p = p
  with_finish-Reads s t es (some f) p = record {
    sound = record { indexed = p.sound.indexed };
    follows = p.follows;
  }

  on_choice-Reads : (s : AnthropicStream) (ch : Choice) → Sound s → Reads s (on_choice mint s ch)
  unfolding on_choice
  on_choice-Reads s ch v =
      let texts = on_content-Reads s ch.content v in
      let tools = on_tools-Reads ch.tool_calls (on_content s ch.content).0 texts.sound in
      with_finish-Reads s _ _ ch.finish_reason (both s _ _ _ _ texts tools)

  on_choices-Reads :
      (cs : List Choice) (s : AnthropicStream) → Sound s → Reads s (on_choices mint s cs)
  unfolding on_choices
  on_choices-Reads [] s v = stay s v
  on_choices-Reads (c ∷ cs) s v =
      let one = on_choice-Reads s c v in
      both s _ _ _ _ one (on_choices-Reads cs (on_choice mint s c).0 one.sound)

  chunk-Reads : (s : AnthropicStream) (c : Option StreamChunk) → Sound s → Reads s (chunk mint s c)
  unfolding chunk
  chunk-Reads s none v = stay s v
  chunk-Reads s (some c) v = on_usage c.usage
    where
      on_usage : (u : Option Usage) → Reads s (on_choices mint (with_usage mint s u) c.choices)
      on_usage none = on_choices-Reads c.choices s v
      on_usage (some u) =
          let r =
            on_choices-Reads c.choices (with_usage mint s (some u))
              (record { indexed = v.indexed }) in
          record { sound = r.sound; follows = r.follows }

  chunks-Reads :
      (cs : List (Option StreamChunk)) (s : AnthropicStream) → Sound s → Reads s (chunks mint s cs)
  unfolding chunks
  chunks-Reads [] s v = stay s v
  chunks-Reads (c ∷ cs) s v =
      let one = chunk-Reads s c v in
      both s _ _ _ _ one (chunks-Reads cs (chunk mint s c).0 one.sound)

  end-reads :
      (s : AnthropicStream)
      → Sound s
      → read_all (reader_of s.open_block s.blocks) (end_stream s).1 ≡ some finished
  unfolding end_stream close_block
  end-reads s v = ground arith

  -- Whatever chunks an engine streams, parseable or not, the events of the reply are a complete and
  -- well-formed Anthropic stream.
  pub reply-reads :
      (id model : String) (payloads : List (Option StreamChunk))
      → read_all waiting (reply mint (new_anthropic_stream id model) payloads) ≡ some finished
  unfolding reply start new_anthropic_stream
  reply-reads id model payloads =
      let s = (start (new_anthropic_stream id model)).0 in
      let body = chunks-Reads payloads s (record { indexed = inl refl }) in
      read_both (chunks mint s payloads).1 _ (between 0) _ finished body.follows
        (end-reads (chunks mint s payloads).0 body.sound)
