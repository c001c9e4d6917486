-- ===== src/Stream/Receiving.antt =====
-- What a client receives of an Ollama stream (engine.go: ollamaStream.Recv).
use gateway.Prelude.{
  ℕ, zero, suc, ◌+◌, ◌≤◌, ◌<◌, ◌≡◌, refl, sym, ap, ap₂, ◌∙◌, append-nil, Bool, true, false,
  Bool-cases, inl, inr, some, List, [], ◌∷◌, ◌++◌, map, if◌then◌else◌, length, arith,
}
use gateway.Stream.{
  ToolCall, OllamaChunk, Line, blank, unparsable, object, StreamToolCall, number_from,
  format_stream_chunk, renumber, with_finish, payload_of, meta_of, OllamaStream, Received, eof,
  failed, frame, recv_object, recv_lines, recv, next_received, drain, new_ollama_stream,
}

-- What a stream yields, by the lines alone: the objects up to the first one that is done, translated.
unfoldable pub received : Bool → Bool → ℕ → List Line → List Received
received fails is_first calls [] = if fails then failed ∷ [] else []
received fails is_first calls (blank ∷ ls) = received fails is_first calls ls
received fails is_first calls (unparsable ∷ ls) = received fails is_first calls ls
received fails is_first calls (object c ∷ ls) =
    let rest = received fails false (calls + length c.tool_calls) ls in
    frame (payload_of is_first calls c) (meta_of (payload_of is_first calls c))
    ∷ (if c.is_done then [] else rest)

drain-done : (n : ℕ) (s : OllamaStream) → 0 < n → s.done ≡ true → drain n s ≡ some []
unfolding drain recv next_received
drain-done zero s h e = absurd (omega (arith, h))
drain-done (suc n) s h e = simp (recv, e) refl

-- What `drain` yields from `ls` on, if it has the fuel for the lines after them.
Drains : ℕ → List Line → OllamaStream → Type 0
Drains n ls s =
    next_received (recv_lines ls s).0 (drain n (recv_lines ls s).1)
    ≡ some (received s.scan_fails s.is_first s.tool_calls ls)

Enough : ℕ → Type 0
Enough n =
    (s : OllamaStream)
    → s.done ≡ false
    → length s.lines < n
    → drain n s ≡ some (received s.scan_fails s.is_first s.tool_calls s.lines)

module _ (fails is_first : Bool) (calls : ℕ) (c : OllamaChunk) (ls : List Line) where
  abbrev pub first_frame : Received
  first_frame = frame (payload_of is_first calls c) (meta_of (payload_of is_first calls c))

  pub received_last :
      c.is_done ≡ true → received fails is_first calls (object c ∷ ls) ≡ first_frame ∷ []
  unfolding received
  received_last e = simp e refl

  received_more :
      c.is_done ≡ false
      → received fails is_first calls (object c ∷ ls)
        ≡ first_frame ∷ received fails false (calls + length c.tool_calls) ls
  unfolding received
  received_more e = simp e refl

lines-Drains :
    (n : ℕ)
    → Enough n
    → (ls : List Line) (s : OllamaStream) → s.done ≡ false
    → length ls ≤ n
    → Drains n ls s
unfolding Drains recv_lines recv_object received next_received Enough
lines-Drains n k [] s d h = elim (Bool-cases s.scan_fails) [
  | inl e ↦ simp e refl
  | inr e ↦ simp e refl
]
lines-Drains n k (blank ∷ ls) s d h = lines-Drains n k ls s d (omega (arith, h))
lines-Drains n k (unparsable ∷ ls) s d h = lines-Drains n k ls s d (omega (arith, h))
lines-Drains n k (object c ∷ ls) s d h = elim (Bool-cases c.is_done) [
  | inl e ↦
      ap (next_received (first_frame s.scan_fails s.is_first s.tool_calls c ls))
        (drain-done n (recv_object c ls s).1 (omega (arith, h)) e)
      ∙ ap some (sym (received_last s.scan_fails s.is_first s.tool_calls c ls e))
  | inr e ↦
      ap (next_received (first_frame s.scan_fails s.is_first s.tool_calls c ls))
        (k (recv_object c ls s).1 e (omega (arith, h)))
      ∙ ap some (sym (received_more s.scan_fails s.is_first s.tool_calls c ls e))
]

drain-Enough : (n : ℕ) → Enough n
unfolding Enough drain recv Drains
drain-Enough zero s d h = absurd (omega (arith, h))
drain-Enough (suc n) s d h =
    simp (recv, d) (lines-Drains n (drain-Enough n) s.lines s d (omega (arith, h)))

-- The loop over Recv ends: one receive more than the stream has lines is enough. It yields the objects
-- up to the first that is done, each translated with the number of tool calls before it, and after
-- them an error if the lines end in one before any object is done.
pub drain-received :
    (lines : List Line) (fails : Bool) (n : ℕ)
    → length lines < n
    → drain n (new_ollama_stream lines fails) ≡ some (received fails true 0 lines)
unfolding Enough new_ollama_stream
drain-received lines fails n h = drain-Enough n (new_ollama_stream lines fails) refl h

-- The indices of the tool calls in the payloads, in order.
unfoldable pub call_indices : List StreamToolCall → List ℕ
call_indices cs = map (λ c. c.index) cs

unfoldable pub indices : List Received → List ℕ
unfolding call_indices
indices [] = []
indices (eof ∷ rs) = indices rs
indices (failed ∷ rs) = indices rs
indices (frame c m ∷ rs) = call_indices c.tool_calls ++ indices rs

unfoldable pub count_up : ℕ → ℕ → List ℕ
count_up i zero = []
count_up i (suc n) = i ∷ count_up (i + 1) n

renumber-count_up :
    (i j : ℕ) (cs : List ToolCall)
    → call_indices (renumber i (number_from j cs)) ≡ count_up i (length cs)
unfolding call_indices renumber number_from count_up
renumber-count_up i j [] = refl
renumber-count_up i j (c ∷ cs) = ap (λ l. i ∷ l) (renumber-count_up (i + 1) (j + 1) cs)

next_index : (i m : ℕ) → i + suc m ≡ i + 1 + m
next_index i m = omega arith

suc-add : (m n : ℕ) → suc (m + n) ≡ suc m + n
suc-add m n = omega arith

count_up-append : (i m n : ℕ) → count_up i m ++ count_up (i + m) n ≡ count_up i (m + n)
unfolding count_up
count_up-append i zero n = ap₂ count_up (omega arith) (omega arith)
count_up-append i (suc m) n =
    ap (λ l. i ∷ l)
      (ap (λ k. count_up (i + 1) m ++ count_up k n) (next_index i m) ∙ count_up-append (i + 1) m n)
    ∙ longer
  where
    longer : count_up i (suc (m + n)) ≡ count_up i (suc m + n)
    longer = ap (count_up i) (suc-add m n)

-- Across a whole stream the tool calls are numbered 0, 1, 2 and so on, whatever number of calls each
-- line brings.
pub indices-count_up :
    (fails first : Bool) (calls : ℕ) (ls : List Line)
    → (n : ℕ) × (indices (received fails first calls ls) ≡ count_up calls n)
unfolding received indices count_up payload_of with_finish format_stream_chunk
indices-count_up fails first calls [] = (0, no_calls fails)
  where
    no_calls : (b : Bool) → indices (if b then failed ∷ [] else []) ≡ []
    no_calls true = refl
    no_calls false = refl
indices-count_up fails first calls (blank ∷ ls) = indices-count_up fails first calls ls
indices-count_up fails first calls (unparsable ∷ ls) = indices-count_up fails first calls ls
indices-count_up fails first calls (object c ∷ ls) =
    let rest = indices-count_up fails false (calls + length c.tool_calls) ls in
    elim (Bool-cases c.is_done) [
      | inl e ↦ (
        length c.tool_calls,
        simp (received, e) (append-nil _ ∙ renumber-count_up calls 0 c.tool_calls),
      )
      | inr e ↦ (
        length c.tool_calls + rest.0,
        simp (received, e)
            (ap₂ (λ a b. a ++ b) (renumber-count_up calls 0 c.tool_calls) rest.1
              ∙ count_up-append calls (length c.tool_calls) rest.0),
      )
    ]
