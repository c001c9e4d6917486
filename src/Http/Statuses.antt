-- ===== src/Http/Statuses.antt =====
-- The client, the audit row and the metrics see one status (main.go, metrics.go).
use gateway.Prelude.{
  ℕ, ◌≤◌, ◌≡◌, refl, ap, ◌∙◌, String, str_eq, starts_with, Bool, true, false, not, ◌||◌, Bool-cases,
  inl, inr, ◌⊎◌, Option, none, some, List, [], ◌∷◌, if◌then◌else◌, All, arith,
}
use gateway.Users.{User}
use gateway.Http.{
  Request, Chunk, error_text, error_envelope, error_frame, done_frame, Recorder,
  new_status_recorder, send_header, send_body, write_header, write, write_error, Call,
  sets_content_type, writes_header, writes, flushes, flush, apply_call, apply_calls, Handler, Run,
  Layer, serve_handler, answer, is_v1, panic_status, csrf_protected, csrf_submitted, log_run,
  request_logging, csrf, is_active, api_auth, api_key_from_request, write_panic_response,
  recover_run, recovery, metrics_status, middleware_chain, client_status,
}

-- The recorder knows what net/http has sent.
pub record IsFaithful (r : Recorder) : Type 0 where
  pub unsent : r.wrote ≡ false → (r.wire ≡ none) × (r.status ≡ 200)
  pub sent : r.wrote ≡ true → r.wire ≡ some r.status

-- No informational status is passed to WriteHeader.
unfoldable pub IsFinal : Call → Type 0
IsFinal (writes_header code) = 200 ≤ code
IsFinal (sets_content_type t) = Unit
IsFinal (writes c) = Unit
IsFinal flushes = Unit

-- No Flush comes before the first WriteHeader or Write.
unfoldable pub CommitsFirst : List Call → Type 0
CommitsFirst [] = Unit
CommitsFirst (sets_content_type t ∷ cs) = CommitsFirst cs
CommitsFirst (writes_header code ∷ cs) = Unit
CommitsFirst (writes c ∷ cs) = Unit
CommitsFirst (flushes ∷ cs) = ⊥

either : {A : Type 0} (P : A → Type 0) (b : Bool) (x y : A) → P x → P y → P (if b then x else y)
either P true x y h h' = h
either P false x y h h' = h'

new-IsFaithful : IsFaithful new_status_recorder
unfolding new_status_recorder
new-IsFaithful = record { unsent = λ h. (refl, refl); sent = λ h. cc }

write_header-IsFaithful :
    (code : ℕ) (r : Recorder) → 200 ≤ code → IsFaithful r → IsFaithful (write_header code r)
unfolding write_header send_header
write_header-IsFaithful code r h f = elim (Bool-cases r.wrote) [
  | inl t ↦ record { unsent = λ e. cc; sent = λ e. rw (f.sent t, t) refl }
  | inr t ↦ record { unsent = λ e. cc; sent = λ e. rw ((f.unsent t).0, t) (ground (arith, h)) }
]

write-IsFaithful : (c : Chunk) (r : Recorder) → IsFaithful r → IsFaithful (write c r)
unfolding write send_body
write-IsFaithful c r f = elim (Bool-cases r.wrote) [
  | inl t ↦ record { unsent = λ e. cc; sent = λ e. rw (f.sent t) refl }
  | inr t ↦ record { unsent = λ e. cc; sent = λ e. rw ((f.unsent t).0, (f.unsent t).1) refl }
]

write_error-IsFaithful :
    (code : ℕ) (c : Chunk) (r : Recorder)
    → 200 ≤ code
    → IsFaithful r
    → IsFaithful (write_error code c r)
unfolding write_error
write_error-IsFaithful code c r h f =
    write-IsFaithful c _
      (write_header-IsFaithful code _ h (record { unsent = f.unsent; sent = f.sent }))

flush-IsFaithful : (r : Recorder) → r.wrote ≡ true → IsFaithful r → IsFaithful (flush r)
unfolding flush send_body
flush-IsFaithful r t f = record { unsent = λ e. cc; sent = λ e. rw (f.sent t) refl }

-- A call on a response that is committed.
committed-IsFaithful :
    (c : Call) (r : Recorder)
    → IsFinal c
    → r.wrote ≡ true
    → IsFaithful r
    → IsFaithful (apply_call c r) × ((apply_call c r).wrote ≡ true)
unfolding apply_call IsFinal write_header write flush
committed-IsFaithful (sets_content_type t) r h w f =
    (record { unsent = f.unsent; sent = f.sent }, w)
committed-IsFaithful (writes_header code) r h w f = (write_header-IsFaithful code r h f, refl)
committed-IsFaithful (writes c) r h w f = (write-IsFaithful c r f, refl)
committed-IsFaithful flushes r h w f = (flush-IsFaithful r w f, w)

more-IsFaithful :
    (cs : List Call) (r : Recorder)
    → All IsFinal cs
    → r.wrote ≡ true
    → IsFaithful r
    → IsFaithful (apply_calls cs r)
unfolding apply_calls
more-IsFaithful [] r h w f = f
more-IsFaithful (c ∷ cs) r h w f =
    let (g, v) = committed-IsFaithful c r h.0 w f in more-IsFaithful cs (apply_call c r) h.1 v g

calls-IsFaithful :
    (cs : List Call) (r : Recorder)
    → All IsFinal cs
    → CommitsFirst cs
    → IsFaithful r
    → IsFaithful (apply_calls cs r)
unfolding apply_calls apply_call IsFinal CommitsFirst write_header write
calls-IsFaithful [] r h o f = f
calls-IsFaithful (sets_content_type t ∷ cs) r h o f =
    calls-IsFaithful cs (record r { content_type = t }) h.1 o
      (record { unsent = f.unsent; sent = f.sent })
calls-IsFaithful (writes_header code ∷ cs) r h o f =
    more-IsFaithful cs (write_header code r) h.1 refl (write_header-IsFaithful code r h.0 f)
calls-IsFaithful (writes c ∷ cs) r h o f =
    more-IsFaithful cs (write c r) h.1 refl (write-IsFaithful c r f)
calls-IsFaithful (flushes ∷ cs) r h o f = absurd o

-- The status that the client has of this response, if it ends here.
unfoldable sent_status : Recorder → ℕ
sent_status r = elim r.wire [ none ↦ 200 | some sent ↦ sent ]

status-eq-sent_status : (r : Recorder) → IsFaithful r → r.status ≡ sent_status r
unfolding sent_status
status-eq-sent_status r f = elim (Bool-cases r.wrote) [
  | inl t ↦ rw (f.sent t) refl
  | inr t ↦ rw ((f.unsent t).0, (f.unsent t).1) refl
]

panic-IsFaithful :
    (q : Request) (r : Recorder) → IsFaithful r → IsFaithful (write_panic_response q r)
unfolding write_panic_response
panic-IsFaithful q r f =
    either IsFaithful r.wrote _ _
      (either IsFaithful (starts_with r.content_type "text/event-stream") _ _
        (write-IsFaithful done_frame _ (write-IsFaithful error_frame r f)) f)
      (either IsFaithful (is_v1 q) _ _ (write_error-IsFaithful 500 error_envelope r (omega arith) f)
        (write_error-IsFaithful 500 error_text r (omega arith) f))

-- The response to a panic has the status that panicStatus foretells.
panic_status_sent :
    (q : Request) (r : Recorder) → IsFaithful r → panic_status r ≡ (write_panic_response q r).status
unfolding panic_status write_panic_response write_error write write_header
panic_status_sent q r f = ground (arith)

-- What a layer below recovery hands up: a faithful response, and an audit row, if there is one, with
-- the status that the client is about to have.
record IsAudited (u : Run) : Type 0 where
  faithful : IsFaithful u.response
  row :
      (u.logged ≡ none)
      ⊎ (u.logged ≡ some (if u.panicking then panic_status u.response else u.response.status))

answer-IsAudited :
    (code : ℕ) (c : Chunk) (r : Recorder) → 200 ≤ code → IsFaithful r → IsAudited (answer code c r)
unfolding answer
answer-IsAudited code c r h f = record {
  faithful = write_error-IsFaithful code c r h f;
  row = inl refl;
}

-- A layer that keeps every faithful response audited.
Audits : Layer → Type 0
Audits layer = (r : Recorder) → IsFaithful r → IsAudited (layer r)

handler-Audits :
    (h : Handler) → All IsFinal h.calls → CommitsFirst h.calls → Audits (serve_handler h)
unfolding serve_handler Audits
handler-Audits h n o r f = record { faithful = calls-IsFaithful h.calls r n o f; row = inl refl }

logging-Audits : (q : Request) (next : Layer) → Audits next → Audits (request_logging q next)
unfolding request_logging log_run Audits
logging-Audits q next n r f =
    either IsAudited (is_v1 q) _ _ (record { faithful = (n r f).faithful; row = inr refl }) (n r f)

csrf-Audits : (q : Request) (next : Layer) → Audits next → Audits (csrf q next)
unfolding csrf Audits
csrf-Audits q next n r f =
    either IsAudited (csrf_protected q) _ _
      (either IsAudited (str_eq q.session_csrf "" || not (str_eq q.session_csrf (csrf_submitted q)))
        _ _ (answer-IsAudited 403 error_text r (omega arith) f) (n r f))
      (n r f)

auth-Audits :
    (lookup : String → Option User) (q : Request) (next : Layer)
    → Audits next
    → Audits (api_auth lookup q next)
unfolding api_auth Audits
auth-Audits lookup q next n r f =
    either IsAudited (not (is_v1 q) || str_eq q.method "OPTIONS") _ _ (n r f) (
      either IsAudited (str_eq (api_key_from_request q) "") _ _
        (answer-IsAudited 401 error_envelope r (omega arith) f)
        (either IsAudited (is_active (lookup (api_key_from_request q))) _ _ (n r f)
          (answer-IsAudited 401 error_envelope r (omega arith) f)))

-- One status for a request: no panic is left, and the metrics and the audit row, if there is one, have
-- the status that the client has.
pub record HasOneStatus (u : Run) : Type 0 where
  pub recovered : u.panicking ≡ false
  pub counted : metrics_status u ≡ client_status u
  pub audited : (u.logged ≡ none) ⊎ (u.logged ≡ some (client_status u))

logged_as : {o : Option ℕ} {m n : ℕ} → m ≡ n → (o ≡ none) ⊎ (o ≡ some m) → (o ≡ none) ⊎ (o ≡ some n)
logged_as e (inl h) = inl h
logged_as e (inr h) = inr (h ∙ ap some e)

settled-HasOneStatus :
    (u : Run)
    → u.panicking ≡ false
    → IsFaithful u.response
    → (u.logged ≡ none) ⊎ (u.logged ≡ some u.response.status)
    → HasOneStatus u
unfolding metrics_status client_status sent_status
settled-HasOneStatus u t f row = record {
  recovered = t;
  counted = simp t (status-eq-sent_status u.response f);
  audited = logged_as (status-eq-sent_status u.response f) row;
}

recover-HasOneStatus : (q : Request) (u : Run) → IsAudited u → HasOneStatus (recover_run q u)
unfolding recover_run metrics_status client_status
recover-HasOneStatus q u v = elim (Bool-cases u.panicking) [
  | inl t ↦ simp t (
      settled-HasOneStatus _ refl (panic-IsFaithful q u.response v.faithful) (
        logged_as
          (ap (λ b. if b then panic_status u.response else u.response.status) t
            ∙ panic_status_sent q u.response v.faithful)
          v.row))
  | inr t ↦ simp t (
      settled-HasOneStatus u t v.faithful
        (logged_as (ap (λ b. if b then panic_status u.response else u.response.status) t) v.row))
]

-- For every request and every handler that passes no informational status to WriteHeader, does not
-- flush before its first WriteHeader or Write, and does not take the connection over, whether it
-- panics before, while or after it writes, or is never reached: no panic leaves the stack, and the
-- metrics, the audit row (if the request has one) and the client have the same status.
pub chain-HasOneStatus :
    (lookup : String → Option User) (q : Request) (h : Handler)
    → All IsFinal h.calls
    → CommitsFirst h.calls
    → HasOneStatus (middleware_chain lookup q h)
unfolding middleware_chain recovery Audits
chain-HasOneStatus lookup q h n o = recover-HasOneStatus q _ (
    auth-Audits lookup q _ (csrf-Audits q _ (logging-Audits q _ (handler-Audits h n o)))
      new_status_recorder new-IsFaithful)

-- A flush before anything is written sends 200 behind the recorder's back: if the handler then panics,
-- the client has 200 and the metrics have 500.
pub flush_first_diverges :
    (q : Request)
    → let u =
        recovery q
          (serve_handler (record { calls = flushes ∷ []; panics = true }))
          new_status_recorder in
      (client_status u ≡ 200) × (metrics_status u ≡ 500)
unfolding recovery recover_run serve_handler apply_calls apply_call flush send_body
    new_status_recorder client_status metrics_status write_panic_response write_error write
    write_header send_header
flush_first_diverges q = elim (Bool-cases (is_v1 q)) [
  | inl t ↦ simp t (refl, refl)
  | inr t ↦ simp t (refl, refl)
]
