-- ===== src/Anthropic/Exits.antt =====
-- What a client has been sent at every exit of streamMessages (api_handlers.go).
use gateway.Prelude.{
  ℕ, ◌+◌, String, ◌≡◌, refl, sym, ap, ap₂, ◌∙◌, Bool, true, false, Option, none, some, List, [],
  ◌∷◌, ◌++◌, map, length, if◌then◌else◌, append_assoc, Bool-cases, if_either, subst, inl, inr,
}
use gateway.Text.{Bytes, StreamAudit, write, write_all}
use gateway.Stream.{ChunkMeta, Detail, apply_meta, no_detail, stream_interrupted}
use gateway.Anthropic.{StreamChunk, AnthropicStream, start, chunk, chunks, end_stream, reply}
use gateway.Anthropic.Relay.{
  Received, eof, failed, frame, Written, event, error_event, Relayed, send, close_stream, relay,
  stream_messages,
}

-- The payloads before the stream ends or fails, and whether it ends.
abbrev pub payloads_of : List Received → List (Option StreamChunk)
payloads_of [] = []
payloads_of (eof ∷ rs) = []
payloads_of (failed ∷ rs) = []
payloads_of (frame p m ∷ rs) = p ∷ payloads_of rs

abbrev pub ends : List Received → Bool
ends [] = true
ends (eof ∷ rs) = true
ends (failed ∷ rs) = false
ends (frame p m ∷ rs) = ends rs

-- One list begins another.
abbrev pub Begins : {A : Type 0} → List A → List A → Type 0
Begins {A} xs ys = (zs : List A) × (xs ++ zs ≡ ys)

module _ {A : Type 0} where
  Begins-append : (xs ys zs : List A) → Begins xs ys → Begins xs (ys ++ zs)
  Begins-append xs ys zs (ws, e) = (ws ++ zs, sym (append_assoc xs ws zs) ∙ ap (λ l. l ++ zs) e)

  append-Begins : (xs ys zs : List A) → Begins ys zs → Begins (xs ++ ys) (xs ++ zs)
  append-Begins xs ys zs (ws, e) = (ws, append_assoc xs ys ws ∙ ap (λ l. xs ++ l) e)

send-Begins : (writes_ok : ℕ → Bool) (n : ℕ) (es : List Written) → Begins (send writes_ok n es).0 es
unfolding send
send-Begins writes_ok n [] = ([], refl)
send-Begins writes_ok n (e ∷ es) =
    let (ws, rest) = send-Begins writes_ok (n + 1) es in
    elim (Bool-cases (writes_ok n)) [
      | inl ok ↦ simp ok (ws, ap (λ l. e ∷ l) rest)
      | inr lost ↦ simp lost (e ∷ es, refl)
    ]

false_is_true : false ≡ true → ⊥
false_is_true h = cc

send_all :
    (writes_ok : ℕ → Bool) (n : ℕ) (es : List Written)
    → (send writes_ok n es).1 ≡ true
    → (send writes_ok n es).0 ≡ es
unfolding send
send_all writes_ok n [] h = refl
send_all writes_ok n (e ∷ es) h = elim (Bool-cases (writes_ok n)) [
  | inl ok ↦ simp ok (ap (λ l. e ∷ l) (send_all writes_ok (n + 1) es (simp ok at h)))
  | inr lost ↦ absurd (false_is_true (simp lost at h))
]

map-append : {A B : Type 0} (f : A → B) (xs ys : List A) → map f (xs ++ ys) ≡ map f xs ++ map f ys
map-append f [] ys = refl
map-append f (x ∷ xs) ys = ap (λ l. f x ∷ l) (map-append f xs ys)

-- The audit texts of the payloads, in order.
abbrev pub texts_of : List Received → List Bytes
texts_of [] = []
texts_of (eof ∷ rs) = []
texts_of (failed ∷ rs) = []
texts_of (frame p m ∷ rs) = m.audit_text ∷ texts_of rs

-- What follows the payloads: the end of the message or, where the stream broke off, the error event.
abbrev pub closing : Bool → AnthropicStream → List Written
closing b s = if b then map event (end_stream s).1 else error_event ∷ []

module _ (mint : ℕ → String) where
  -- What a client that stays is sent after the opening.
  abbrev pub rest_of : AnthropicStream → List Received → List Written
  rest_of s rs =
      map event (chunks mint s (payloads_of rs)).1
      ++ closing (ends rs) (chunks mint s (payloads_of rs)).0

  -- The whole of it.
  abbrev pub script : AnthropicStream → List Received → List Written
  script s rs = event (start s).1 ∷ rest_of (start s).0 rs

  rest_of-frame :
      (s : AnthropicStream) (p : Option StreamChunk) (m : ChunkMeta) (rs : List Received)
      → rest_of s (frame p m ∷ rs) ≡ map event (chunk mint s p).1 ++ rest_of (chunk mint s p).0 rs
  unfolding chunks
  rest_of-frame s p m rs =
      let s' = (chunk mint s p).0 in
      let now = (chunk mint s p).1 in
      let later = (chunks mint s' (payloads_of rs)).1 in
      let tail = closing (ends rs) (chunks mint s' (payloads_of rs)).0 in
      ap (λ l. l ++ tail) (map-append event now later)
      ∙ append_assoc (map event now) (map event later) tail

  -- A stream that ends is told as the whole reply of the translator.
  script-reply :
      (s : AnthropicStream) (rs : List Received)
      → ends rs ≡ true
      → script s rs ≡ map event (reply mint s (payloads_of rs))
  unfolding reply
  script-reply s rs e =
      let fin = chunks mint (start s).0 (payloads_of rs) in
      ap (λ b. event (start s).1 ∷ map event fin.1 ++ closing b fin.0) e
      ∙ ap (λ l. event (start s).1 ∷ l) (sym (map-append event fin.1 (end_stream fin.0).1))

  module _ (writes_ok : ℕ → Bool) where
    send_complete :
        (n : ℕ) (es : List Written)
        → ((k : ℕ) → writes_ok k ≡ true)
        → (send writes_ok n es).1 ≡ true
    unfolding send
    send_complete n [] ok = refl
    send_complete n (e ∷ es) ok = simp (ok n) (send_complete (n + 1) es ok)

    send_whole :
        (n : ℕ) (es : List Written) → ((k : ℕ) → writes_ok k ≡ true) → (send writes_ok n es).0 ≡ es
    send_whole n es ok = send_all writes_ok n es (send_complete n es ok)

    relay-Begins :
        (n : ℕ) (s : AnthropicStream) (rs : List Received) (a : StreamAudit) (d : Detail)
        → Begins (relay mint writes_ok n s rs a d).sent (rest_of s rs)
    unfolding relay close_stream chunks
    relay-Begins n s [] a d = send-Begins writes_ok n (map event (end_stream s).1)
    relay-Begins n s (eof ∷ rs) a d = send-Begins writes_ok n (map event (end_stream s).1)
    relay-Begins n s (failed ∷ rs) a d = send-Begins writes_ok n (error_event ∷ [])
    relay-Begins n s (frame p m ∷ rs) a d =
        let now = map event (chunk mint s p).1 in
        let s' = (chunk mint s p).0 in
        let a' = write a m.audit_text in
        let later = (relay mint writes_ok (n + length now) s' rs a' (apply_meta m d)).sent in
        let ih = relay-Begins (n + length now) s' rs a' (apply_meta m d) in
        subst (Begins _) (sym (rest_of-frame s p m rs)) (
          if_either (λ (r : Relayed). Begins r.sent (now ++ rest_of s' rs)) (send writes_ok n now).1
            _ _
            (λ all.
              subst (λ l. Begins (l ++ later) (now ++ rest_of s' rs))
                (sym (send_all writes_ok n now all)) (append-Begins now later (rest_of s' rs) ih))
            (λ _. Begins-append _ now (rest_of s' rs) (send-Begins writes_ok n now)))

    -- Whatever the engine sends and whenever the client leaves, what reached the client begins the
    -- script of the stream: nothing is left out, repeated or reordered, and nothing follows the end of
    -- the message or the error event.
    pub stream_messages-Begins :
        (max_msg_len : ℕ) (s : AnthropicStream) (rs : List Received)
        → Begins (stream_messages mint writes_ok max_msg_len s rs).sent (script s rs)
    unfolding stream_messages send
    stream_messages-Begins max_msg_len s rs =
        let opening = event (start s).1 in
        let new : StreamAudit = record { limit = max_msg_len; buf = [] } in
        let (ws, e) = relay-Begins 1 (start s).0 rs new no_detail in
        elim (Bool-cases (writes_ok 0)) [
          | inl ok ↦ simp ok (ws, ap (λ l. opening ∷ l) e)
          | inr lost ↦ simp lost (script s rs, refl)
        ]

    -- How a stream is left where every write succeeds.
    pub record Complete (s : AnthropicStream) (rs : List Received) (whole : List Written)
        (a : StreamAudit) (r : Relayed) : Type 0 where
      pub sent : r.sent ≡ whole
      pub outcome : r.outcome ≡ (if ends rs then none else some stream_interrupted)
      pub audit : r.audit ≡ write_all a (texts_of rs)

    relay-Complete :
        (n : ℕ) (s : AnthropicStream) (rs : List Received) (a : StreamAudit) (d : Detail)
        → ((k : ℕ) → writes_ok k ≡ true)
        → Complete s rs (rest_of s rs) a (relay mint writes_ok n s rs a d)
    unfolding relay close_stream chunks write_all
    relay-Complete n s [] a d ok = record {
      sent = send_whole n (map event (end_stream s).1) ok;
      outcome = refl;
      audit = refl;
    }
    relay-Complete n s (eof ∷ rs) a d ok = record {
      sent = send_whole n (map event (end_stream s).1) ok;
      outcome = refl;
      audit = refl;
    }
    relay-Complete n s (failed ∷ rs) a d ok = record {
      sent = send_whole n (error_event ∷ []) ok;
      outcome = refl;
      audit = refl;
    }
    relay-Complete n s (frame p m ∷ rs) a d ok =
        let now = map event (chunk mint s p).1 in
        let s' = (chunk mint s p).0 in
        let a' = write a m.audit_text in
        let ih = relay-Complete (n + length now) s' rs a' (apply_meta m d) ok in
        let all = send_complete n now ok in
        record {
          sent =
              simp all
                (ap₂ (λ l t. l ++ t) (send_whole n now ok) ih.sent ∙ sym (rest_of-frame s p m rs));
          outcome = simp all ih.outcome;
          audit = simp all ih.audit;
        }

    -- A client that stays gets the whole script: the translator's reply where the engine's stream ends,
    -- and otherwise the payloads before the break and then the error event. The outcome says which,
    -- and the audit has the texts of all these payloads.
    pub stream_messages-Complete :
        (max_msg_len : ℕ) (s : AnthropicStream) (rs : List Received)
        → ((k : ℕ) → writes_ok k ≡ true)
        → Complete s rs
            (script s rs)
            (record { limit = max_msg_len; buf = [] })
            (stream_messages mint writes_ok max_msg_len s rs)
    unfolding stream_messages send
    stream_messages-Complete max_msg_len s rs ok =
        let new : StreamAudit = record { limit = max_msg_len; buf = [] } in
        let told = relay-Complete 1 (start s).0 rs new no_detail ok in
        record {
          sent = simp (ok 0) (ap (λ l. event (start s).1 ∷ l) told.sent);
          outcome = simp (ok 0) told.outcome;
          audit = simp (ok 0) told.audit;
        }
