-- ===== src/Anthropic/Answers.antt =====
-- An Ollama answer by way of OpenAI's shape (openai.go: ollamaToOpenAI; anthropic.go:
-- openAIToAnthropic).
use gateway.Prelude.{
  ℕ, ◌+◌, ◌≡◌, refl, Bool, true, false, not, Bool-cases, inl, inr, List, [], ◌∷◌, ◌++◌,
  if◌then◌else◌, All,
}
use gateway.Text.{Bytes}
use gateway.Json.{
  Items, no_items, item, Fields, get, is, as_fields, as_items, as_string, is_empty, bytes_eq,
}
use gateway.OpenAi.History.{is_blank}
use gateway.OpenAi.Response.{
  Codec, to_int, tool_calls_from, ollama_to_open_ai, is_none, finish_stop, finish_length,
  finish_tool_calls,
}
use gateway.Anthropic.{end_turn, max_tokens, tool_use}
use gateway.Anthropic.Response.{
  stop_reason, ContentBlock, text_block, tool_use_block, AnthropicMessage, text_blocks, tool_blocks,
  open_ai_to_anthropic,
}

-- A text block has text, and a tool_use block an ID.
unfoldable pub is_sound : ContentBlock → Bool
is_sound (text_block s) = not (is_blank s)
is_sound (tool_use_block id name input) = not (is_blank id)

-- What the client is told of an Ollama answer.
pub record Tells (codec : Codec) (answer : Fields) (m : AnthropicMessage) : Type 0 where
  pub stops : m.stop_reason ≡ (
      if is_empty (as_items (get "tool_calls" (as_fields (get "message" answer))))
      then if is "length" (get "done_reason" answer) then max_tokens else end_turn
      else tool_use)
  pub counts :
      (m.usage.input_tokens ≡ to_int codec (get "prompt_eval_count" answer))
      × (m.usage.output_tokens ≡ to_int codec (get "eval_count" answer))
  pub sound : All (λ b. is_sound b ≡ true) m.content

stops_for :
    (codec : Codec) (calls : Items) (limited : Bool)
    → (if is_none (tool_calls_from codec 0 calls)
        then stop_reason (
            if is_none (tool_calls_from codec 0 calls)
            then if limited then finish_length else finish_stop
            else finish_tool_calls)
        else tool_use)
      ≡ (if is_empty calls then if limited then max_tokens else end_turn else tool_use)
unfolding is_none tool_calls_from is_empty stop_reason bytes_eq
stops_for codec no_items true = refl
stops_for codec no_items false = refl
stops_for codec (item c rest) limited = refl

module _ (codec : Codec) (valid : Bytes → Bool) (mint : ℕ → Bytes) where
  sound_id :
      (minted : (n : ℕ) → is_blank (codec.mint n) ≡ false) (n k : ℕ) (id : Bytes)
      → let id' = if is_blank id then codec.mint n else id in
        not (is_blank (if is_blank id' then mint k else id')) ≡ true
  sound_id minted n k id = elim (Bool-cases (is_blank id)) [
    | inl e ↦ simp (e, minted n) refl
    | inr e ↦ simp e refl
  ]

  sound_calls :
      (minted : (n : ℕ) → is_blank (codec.mint n) ≡ false) (n k : ℕ) (calls : Items)
      → All (λ b. is_sound b ≡ true) (tool_blocks valid mint k (tool_calls_from codec n calls))
  unfolding tool_blocks tool_calls_from is_sound
  sound_calls minted n k no_items = tt
  sound_calls minted n k (item c rest) =
      (sound_id minted n k _, sound_calls minted (n + 1) (k + 1) rest)

  sound_text :
      (s : Bytes) (bs : List ContentBlock)
      → All (λ b. is_sound b ≡ true) bs
      → All (λ b. is_sound b ≡ true) (text_blocks s ++ bs)
  unfolding text_blocks is_sound is_blank
  sound_text [] bs h = h
  sound_text (b ∷ s) bs h = (refl, h)

  -- An Ollama answer reaches a Messages client with its token counts. It stops for tool use exactly if
  -- the model called a tool, for its length if it was cut, and otherwise at the end of its turn. No
  -- text block is empty and no tool_use block is without an ID, if the minted IDs are not empty.
  pub open_ai_to_anthropic-Tells :
      (minted : (n : ℕ) → is_blank (codec.mint n) ≡ false) (model : Bytes) (answer : Fields)
      → Tells codec answer (open_ai_to_anthropic valid mint model (ollama_to_open_ai codec answer))
  unfolding open_ai_to_anthropic ollama_to_open_ai
  open_ai_to_anthropic-Tells minted model answer = record {
    stops =
        stops_for codec (as_items (get "tool_calls" (as_fields (get "message" answer))))
          (is "length" (get "done_reason" answer));
    counts = (refl, refl);
    sound =
        sound_text (as_string (get "content" (as_fields (get "message" answer)))) _
          (sound_calls minted 0 0 (as_items (get "tool_calls" (as_fields (get "message" answer)))));
  }
