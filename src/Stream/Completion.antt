-- ===== src/Stream/Completion.antt =====
-- What a streamed completion tells the client, and what it records of it (api_handlers.go: streamCompletion).
use gateway.Prelude.{
  ℕ, ◌+◌, ◌≡◌, refl, sym, ap, ◌∙◌, Bool, Bool-cases, inl, inr, Option, none, some, List, [], ◌∷◌,
  ◌++◌, map, if◌then◌else◌, append_assoc, append-nil,
}
use gateway.Text.{write_all}
use gateway.Stream.{
  Chunk, ChunkMeta, Received, eof, failed, frame, Frame, payload, error_frame, done_frame, Outcome,
  client_disconnected, stream_interrupted, Streamed, send, relay, stream_completion, new_streamed,
}

-- The frames of the engine that reach the client: up to the end, an error or a failed write.
unfoldable pub delivered : (ℕ → Bool) → ℕ → List Received → List (Chunk × ChunkMeta)
delivered ok n [] = []
delivered ok n (eof ∷ rs) = []
delivered ok n (failed ∷ rs) = []
delivered ok n (frame c m ∷ rs) =
    let rest = delivered ok (n + 1) rs in if ok n then (c, m) ∷ rest else []

-- What follows them, by the outcome.
unfoldable pub ending : Option Outcome → List Frame
ending none = done_frame ∷ []
ending (some stream_interrupted) = error_frame ∷ done_frame ∷ []
ending (some client_disconnected) = []

-- The response told the client these frames and recorded them.
pub record Tells (t t' : Streamed) (frames : List (Chunk × ChunkMeta)) : Type 0 where
  pub told : t'.sent ≡ t.sent ++ (map (λ f. payload f.0) frames ++ ending t'.outcome)
  pub audited : t'.audit ≡ write_all t.audit (map (λ f. f.1.audit_text) frames)

loop-Tells :
    (ok : ℕ → Bool) (n : ℕ) (rs : List Received) (t : Streamed)
    → t.outcome ≡ none
    → Tells t (stream_completion ok n rs t) (delivered ok n rs)
unfolding stream_completion delivered send relay ending write_all
loop-Tells ok n [] t e = record { told = ap (λ o. t.sent ++ ending o) (sym e); audited = refl }
loop-Tells ok n (eof ∷ rs) t e = record {
  told = ap (λ o. t.sent ++ ending o) (sym e);
  audited = refl;
}
loop-Tells ok n (failed ∷ rs) t e = record {
  told = append_assoc t.sent (error_frame ∷ []) (done_frame ∷ []);
  audited = refl;
}
loop-Tells ok n (frame c m ∷ rs) t e =
    let rest = loop-Tells ok (n + 1) rs (relay c m t) e in
    elim (Bool-cases (ok n)) [
      | inl u ↦ simp u (record {
        told = rest.told ∙ append_assoc t.sent (payload c ∷ []) _;
        audited = rest.audited;
      })
      | inr u ↦ simp u (record { told = sym (append-nil t.sent); audited = refl })
    ]

-- Whatever the engine sends and wherever it fails or the client leaves, the client was sent exactly
-- the delivered payloads in order, then the terminator, an error frame and the terminator, or
-- nothing, as the recorded outcome says; and the audit buffer is what the texts of the delivered
-- payloads, and no others, write.
pub stream_completion-Tells :
    (max_msg_len : ℕ) (ok : ℕ → Bool) (rs : List Received)
    → Tells
        (new_streamed max_msg_len)
        (stream_completion ok 0 rs (new_streamed max_msg_len))
        (delivered ok 0 rs)
stream_completion-Tells max_msg_len ok rs = loop-Tells ok 0 rs (new_streamed max_msg_len) refl
