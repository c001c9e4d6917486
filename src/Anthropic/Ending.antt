-- ===== src/Anthropic/Ending.antt =====
-- How a reply ends: the stop reason and the usage of its one message_delta.
use gateway.Prelude.{
  ℕ, ◌+◌, String, ◌≡◌, ◌≢◌, ◌<◌, refl, ap, ◌⊎◌, Bool, true, false, Option, none, some, List, [],
  ◌∷◌, ◌++◌, if◌then◌else◌, arith, inl, inr, str_eq, eq_iff, Bool-cases, ◌∙◌,
}
use gateway.Anthropic.{
  StopReason, tool_use, max_tokens, end_turn, stop_reason_from_finish, AnthropicUsage, SseEvent,
  tool_block_start, message_delta, ToolFragment, Choice, Usage, StreamChunk, tool_block, is_tool,
  AnthropicStream, new_anthropic_stream, start, close_block, enter_text, on_content, enter_tool,
  on_tool, on_tools, with_finish, on_choice, on_choices, with_usage, chunk, chunks, end_stream,
  reply,
}

abbrev pub endings : List SseEvent → List (StopReason × AnthropicUsage)
endings [] = []
endings (message_delta stop usage ∷ es) = (stop, usage) ∷ endings es
endings (_ ∷ es) = endings es

-- The tool blocks that are opened, with their index and name.
abbrev pub starts : List SseEvent → List (ℕ × String)
starts [] = []
starts (tool_block_start i id name ∷ es) = (i, name) ∷ starts es
starts (_ ∷ es) = starts es

-- What the choices of a stream say at last, beginning with what was said before them.
abbrev pub any_tool : Bool → List ToolFragment → Bool
any_tool b [] = b
any_tool b (tc ∷ tcs) = any_tool true tcs

abbrev pub said : String → Option String → String
said f none = f
said f (some g) = g

abbrev pub choices_tool : Bool → List Choice → Bool
choices_tool b [] = b
choices_tool b (c ∷ cs) = choices_tool (any_tool b c.tool_calls) cs

abbrev pub choices_finish : String → List Choice → String
choices_finish f [] = f
choices_finish f (c ∷ cs) = choices_finish (said f c.finish_reason) cs

abbrev pub last_tool : Bool → List (Option StreamChunk) → Bool
last_tool b [] = b
last_tool b (none ∷ ps) = last_tool b ps
last_tool b (some c ∷ ps) = last_tool (choices_tool b c.choices) ps

abbrev pub last_finish : String → List (Option StreamChunk) → String
last_finish f [] = f
last_finish f (none ∷ ps) = last_finish f ps
last_finish f (some c ∷ ps) = last_finish (choices_finish f c.choices) ps

abbrev pub stopped_by : String → StopReason
stopped_by finish =
    if str_eq finish "tool_calls"
    then tool_use
    else if str_eq finish "function_call"
    then tool_use
    else if str_eq finish "length"
    then max_tokens
    else end_turn

stopped_by-stop_reason_from_finish : (f : String) → stop_reason_from_finish f ≡ stopped_by f
unfolding stop_reason_from_finish
stopped_by-stop_reason_from_finish f = elim (Bool-cases (str_eq f "length")) [
  | inl e ↦ rw ((eq_iff f "length").0 e) refl
  | inr e ↦ simp e (ground arith)
]

abbrev pub counted : AnthropicUsage → Option Usage → AnthropicUsage
counted u none = u
counted u (some v) = record { input_tokens = v.prompt_tokens; output_tokens = v.completion_tokens }

abbrev pub last_usage : AnthropicUsage → List (Option StreamChunk) → AnthropicUsage
last_usage u [] = u
last_usage u (none ∷ ps) = last_usage u ps
last_usage u (some c ∷ ps) = last_usage (counted u c.usage) ps

endings-append : (es fs : List SseEvent) → endings (es ++ fs) ≡ endings es ++ endings fs
endings-append [] fs = refl
endings-append (message_delta stop usage ∷ es) fs =
    ap (λ ts. (stop, usage) ∷ ts) (endings-append es fs)
endings-append (_ ∷ es) fs = endings-append es fs

-- What a step leaves: the last words of the engine, no ending, and an open tool block only if a tool
-- was seen.
record Says (s : AnthropicStream) (b : Bool) (f : String) (u : AnthropicUsage) : Type 0 where
  honest : (is_tool s.open_block ≡ false) ⊎ (s.saw_tool ≡ true)
  tool : s.saw_tool ≡ b
  finish : s.finish ≡ f
  usage : s.usage ≡ u

on_content-Says :
    (s : AnthropicStream) (t : String) {b : Bool} {f : String} {u : AnthropicUsage}
    → Says s b f u
    → Says (on_content s t).0 b f u × (endings (on_content s t).1 ≡ [])
unfolding on_content enter_text close_block is_tool
on_content-Says s t v = (
  record {
    honest = ground arith;
    tool = ground arith;
    finish = ground arith;
    usage = ground arith;
  },
  ground arith,
)

module _ (mint : ℕ → String) where
  on_tool-Says :
      (s : AnthropicStream) (tc : ToolFragment) {b : Bool} {f : String} {u : AnthropicUsage}
      → Says s b f u
      → Says (on_tool mint s tc).0 true f u × (endings (on_tool mint s tc).1 ≡ [])
  unfolding on_tool enter_tool close_block is_tool
  on_tool-Says s tc v = (
    record {
      honest = ground arith;
      tool = ground arith;
      finish = ground arith;
      usage = ground arith;
    },
    ground arith,
  )

  on_tools-Says :
      (tcs : List ToolFragment) (s : AnthropicStream) {b : Bool} {f : String} {u : AnthropicUsage}
      → Says s b f u
      → Says (on_tools mint s tcs).0 (any_tool b tcs) f u × (endings (on_tools mint s tcs).1 ≡ [])
  unfolding on_tools
  on_tools-Says [] s v = (v, refl)
  on_tools-Says (tc ∷ tcs) s v =
      let (one, quiet) = on_tool-Says s tc v in
      let (all, still) = on_tools-Says tcs (on_tool mint s tc).0 one in
      (all, simp (endings-append, quiet, still))

  with_finish-Says :
      (s : AnthropicStream) (g : Option String) {b : Bool} {f : String} {u : AnthropicUsage}
      → Says s b f u
      → Says (with_finish mint s g) b (said f g) u
  with_finish-Says s none v = v
  with_finish-Says s (some g) v = record {
    honest = v.honest;
    tool = v.tool;
    finish = refl;
    usage = v.usage;
  }

  on_choices-Says :
      (cs : List Choice) (s : AnthropicStream) {b : Bool} {f : String} {u : AnthropicUsage}
      → Says s b f u
      → Says (on_choices mint s cs).0 (choices_tool b cs) (choices_finish f cs) u
        × (endings (on_choices mint s cs).1 ≡ [])
  unfolding on_choices on_choice
  on_choices-Says [] s v = (v, refl)
  on_choices-Says (c ∷ cs) s v =
      let (texted, quiet) = on_content-Says s c.content v in
      let (called, still) = on_tools-Says c.tool_calls (on_content s c.content).0 texted in
      let done =
        with_finish-Says (on_tools mint (on_content s c.content).0 c.tool_calls).0 c.finish_reason
          called in
      let (all, silent) = on_choices-Says cs (on_choice mint s c).0 done in
      (all, simp (endings-append, quiet, still, silent))

  with_usage-Says :
      (s : AnthropicStream) (g : Option Usage) {b : Bool} {f : String} {u : AnthropicUsage}
      → Says s b f u
      → Says (with_usage mint s g) b f (counted u g)
  with_usage-Says s none v = v
  with_usage-Says s (some g) v = record {
    honest = v.honest;
    tool = v.tool;
    finish = v.finish;
    usage = refl;
  }

  chunks-Says :
      (ps : List (Option StreamChunk)) (s : AnthropicStream) {b : Bool} {f : String}
      {u : AnthropicUsage}
      → Says s b f u
      → Says (chunks mint s ps).0 (last_tool b ps) (last_finish f ps) (last_usage u ps)
        × (endings (chunks mint s ps).1 ≡ [])
  unfolding chunks chunk
  chunks-Says [] s v = (v, refl)
  chunks-Says (none ∷ ps) s v = chunks-Says ps s v
  chunks-Says (some c ∷ ps) s v =
      let (one, quiet) =
        on_choices-Says c.choices (with_usage mint s c.usage) (with_usage-Says s c.usage v) in
      let (all, still) = chunks-Says ps (chunk mint s (some c)).0 one in
      (all, simp (endings-append, quiet, still))

  end-Says :
      (s : AnthropicStream) (b : Bool) (f : String) (u : AnthropicUsage)
      → Says s b f u
      → endings (end_stream s).1 ≡ ((if b then tool_use else stop_reason_from_finish f), u) ∷ []
  unfolding end_stream close_block
  end-Says s b f u v = rw (← v.tool, ← v.finish, ← v.usage) (ground arith)

  -- A reply ends once. If the engine made a tool call it stops for tool use, whatever finish reason was
  -- given. If not, the last finish reason given decides: "length" is max_tokens, "tool_calls" and
  -- "function_call" are tool use, and anything else, also none, is end_turn. Its usage is the last one
  -- reported, or zero.
  pub reply-endings :
      (id model : String) (payloads : List (Option StreamChunk))
      → endings (reply mint (new_anthropic_stream id model) payloads)
        ≡ (
          (if last_tool false payloads then tool_use else stopped_by (last_finish "" payloads)),
          last_usage (record { input_tokens = 0; output_tokens = 0 }) payloads,
        )
          ∷ []
  unfolding reply start new_anthropic_stream is_tool
  reply-endings id model payloads =
      let s = (start (new_anthropic_stream id model)).0 in
      let (all, quiet) =
        chunks-Says payloads s
          (record { honest = inl refl; tool = refl; finish = refl; usage = refl }) in
      simp (endings-append, quiet)
        (end-Says (chunks mint s payloads).0 _ _ _ all
          ∙ ap
              (λ w.
                (
                  (if last_tool false payloads then tool_use else w),
                  last_usage (record { input_tokens = 0; output_tokens = 0 }) payloads,
                )
                ∷ [])
              (stopped_by-stop_reason_from_finish (last_finish "" payloads)))

-- A call whose fragments do not follow one another is not put together again: when another call's
-- fragment comes in between, the rest of the first call opens a new block, with the name and id of
-- the later fragment.
pub interleaved_reopens :
    (mint : ℕ → String) (s : AnthropicStream) (other later : ToolFragment)
    → s.open_block ≡ tool_block
    → s.tool_index ≡ later.index
    → other.index ≢ later.index
    → 0 < s.blocks
    → (starts (on_tools mint s (other ∷ later ∷ [])).1
        ≡ (s.blocks, other.name) ∷ (s.blocks + 1, later.name) ∷ [])
unfolding on_tools on_tool enter_tool close_block is_tool
interleaved_reopens mint s other later opened same differ pos = ground arith
