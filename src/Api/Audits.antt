-- ===== src/Api/Audits.antt =====
-- What the endpoints audit (api_handlers.go: handleChatCompletions, handleMessages, logInteraction).
use gateway.Prelude.{
  ℕ, ◌≡◌, refl, true, Bool, false, Option, none, some, List, [], ◌∷◌, All, if◌then◌else◌,
}
use gateway.Text.{Bytes}
use gateway.Json.{Fields, get, as_bool, as_string, as_items, objects}
use gateway.Stream.{stream_completion, new_streamed}
use gateway.Anthropic.Relay.{stream_messages}
use gateway.Anthropic.Request.{anthropic_to_open_ai}
use gateway.Engine.{Adapter}
use gateway.RateLimit.{Rate}
use gateway.Users.{User}
use gateway.Admission.{Admitted, refused, admitted, Gateway}
use gateway.Messages.{Message}
use gateway.Messages.Bounds.{fits, sanitize_messages-All}
use gateway.Anthropic.Response.{AnthropicMessage}
use gateway.Api.{
  Library, Read, Answers, Reply, error, nothing, ok, sse, events, tokens, Interaction, Payload,
  audit_text, message, Chat, answered, failed, client_left, Opening, no_flusher, not_opened,
  left_before, opened, with_slot, logged, chat_answer, chat_stream, message_answer, messages_answer,
  messages_stream, fields_read, serve_chat, serve_messages, handle_chat_completions,
  handle_messages, chat_history, messages_history, user_id_of, message_of, payload_of,
}

-- The one entry for what a user was answered, with no message longer than the bound.
pub record Entry (l : Library) (uid : ℕ) (response : Payload) (log : List Interaction)
    : Type 0 where
  pub entry : Interaction
  pub alone : log ≡ entry ∷ []
  pub user : entry.user_id ≡ uid
  pub told : entry.response ≡ response
  pub bounded : All (λ m. fits l.max_msg_len m.content ≡ true) entry.messages

-- What has to be in the log after an answer: nothing, or that entry.
abbrev pub Audited : Library → ℕ → Reply → List Interaction → Type 0
Audited l uid (error code) log = log ≡ []
Audited l uid nothing log = log ≡ []
Audited l uid (tokens n) log = log ≡ []
Audited l uid (ok p) log = Entry l uid p log
Audited l uid (sse t) log = Entry l uid (audit_text t.audit.buf t.outcome) log
Audited l uid (events t) log = Entry l uid (audit_text t.audit.buf t.outcome) log

module _ (l : Library) (uid : ℕ) (messages : List Message) (model : Bytes) where
  logged-Entry :
      (reply : Reply) (response : Payload)
      → All (λ m. fits l.max_msg_len m.content ≡ true) messages
      → Entry l uid response (logged reply response uid messages model).1
  unfolding logged
  logged-Entry reply response short = record {
    entry = _;
    alone = refl;
    user = refl;
    told = refl;
    bounded = short;
  }

  chat_answer-Audited :
      (adapter : Adapter) (c : Chat)
      → All (λ m. fits l.max_msg_len m.content ≡ true) messages
      → let p = chat_answer l uid messages model adapter c in Audited l uid p.0 p.1
  unfolding chat_answer logged
  chat_answer-Audited adapter failed short = refl
  chat_answer-Audited adapter client_left short = refl
  chat_answer-Audited adapter (answered result) short =
      logged-Entry (ok (payload_of l adapter result)) (payload_of l adapter result) short

  chat_stream-Audited :
      (writes_ok : ℕ → Bool) (o : Opening gateway.Stream.Received)
      → All (λ m. fits l.max_msg_len m.content ≡ true) messages
      → let p = chat_stream l writes_ok uid messages model o in Audited l uid p.0 p.1
  unfolding chat_stream logged
  chat_stream-Audited writes_ok no_flusher short = refl
  chat_stream-Audited writes_ok not_opened short = refl
  chat_stream-Audited writes_ok left_before short = refl
  chat_stream-Audited writes_ok (opened rs) short =
      let t = stream_completion writes_ok 0 rs (new_streamed l.max_msg_len) in
      logged-Entry (sse t) (audit_text t.audit.buf t.outcome) short

  message_answer-Audited :
      (m : Option AnthropicMessage)
      → All (λ m. fits l.max_msg_len m.content ≡ true) messages
      → let p = message_answer l uid messages model m in Audited l uid p.0 p.1
  unfolding message_answer logged
  message_answer-Audited none short = refl
  message_answer-Audited (some m) short = logged-Entry (ok (message m)) (message m) short

  messages_answer-Audited :
      (adapter : Adapter) (c : Chat)
      → All (λ m. fits l.max_msg_len m.content ≡ true) messages
      → let p = messages_answer l uid messages model adapter c in Audited l uid p.0 p.1
  unfolding messages_answer
  messages_answer-Audited adapter failed short = refl
  messages_answer-Audited adapter client_left short = refl
  messages_answer-Audited adapter (answered result) short =
      message_answer-Audited (message_of l model adapter result) short

  messages_stream-Audited :
      (writes_ok : ℕ → Bool) (o : Opening gateway.Anthropic.Relay.Received)
      → All (λ m. fits l.max_msg_len m.content ≡ true) messages
      → let p = messages_stream l writes_ok uid messages model o in Audited l uid p.0 p.1
  unfolding messages_stream logged
  messages_stream-Audited writes_ok no_flusher short = refl
  messages_stream-Audited writes_ok not_opened short = refl
  messages_stream-Audited writes_ok left_before short = refl
  messages_stream-Audited writes_ok (opened rs) short =
      let t = stream_messages l.mint_stream writes_ok l.max_msg_len (l.new_stream model) rs in
      logged-Entry (events t) (audit_text t.audit.buf t.outcome) short

module _ (l : Library) (uid : ℕ) (f : Fields) (adapter : Adapter) (a : Answers) where
  -- Of two results, each audited, the one that is chosen is.
  either_Audited :
      (b : Bool) (p q : Reply × List Interaction)
      → Audited l uid p.0 p.1
      → Audited l uid q.0 q.1
      → Audited l uid (if b then p else q).0 (if b then p else q).1
  either_Audited true p q x y = x
  either_Audited false p q x y = y

  serve_chat-Audited :
      Audited l uid (serve_chat l uid f adapter a).0 (serve_chat l uid f adapter a).1
  unfolding serve_chat
  serve_chat-Audited =
      let short = sanitize_messages-All l.max_msg_len (as_items (get "messages" f)) in
      let messages = chat_history l f in
      let model = as_string (get "model" f) in
      either_Audited (as_bool (get "stream" f)) _ _
        (chat_stream-Audited l uid messages model a.writes_ok _ short)
        (chat_answer-Audited l uid messages model adapter _ short)

  serve_messages-Audited :
      Audited l uid (serve_messages l uid f adapter a).0 (serve_messages l uid f adapter a).1
  unfolding serve_messages
  serve_messages-Audited =
      let translation = anthropic_to_open_ai l.encode f in
      let short = sanitize_messages-All l.max_msg_len (objects translation.1) in
      let messages = messages_history l f in
      let model = as_string (get "model" f) in
      either_Audited (as_bool (get "stream" translation.0)) _ _
        (messages_stream-Audited l uid messages model a.writes_ok _ short)
        (messages_answer-Audited l uid messages model adapter _ short)

module _ {rate : Rate} (l : Library) where
  with_slot-Audited :
      (uid : ℕ) (p : Gateway rate × Admitted) (serve : Adapter → Reply × List Interaction)
      → ((adapter : Adapter) → Audited l uid (serve adapter).0 (serve adapter).1)
      → Audited l uid (with_slot rate l p serve).1 (with_slot rate l p serve).2
  unfolding with_slot
  with_slot-Audited uid (g, refused code) serve h = refl
  with_slot-Audited uid (g, admitted adapter) serve h = h adapter

  -- Whatever the request holds and whatever the engine and the client do, a chat completion that is
  -- answered with a body or a stream leaves one audit entry: the user's, for what was answered and,
  -- in a stream, how it ended, with no text of a message over the bound. Every other exit leaves none.
  pub chat-Audited :
      (user : Option User) (read : Read) (a : Answers) (g : Gateway rate)
      → let r = handle_chat_completions rate l user read a g in Audited l (user_id_of user) r.1 r.2
  unfolding handle_chat_completions
  chat-Audited user read a g =
      with_slot-Audited (user_id_of user) _ _
        (λ adapter. serve_chat-Audited l (user_id_of user) (fields_read read) adapter a)

  -- The same of a Messages request.
  pub messages-Audited :
      (user : Option User) (read : Read) (a : Answers) (g : Gateway rate)
      → let r = handle_messages rate l user read a g in Audited l (user_id_of user) r.1 r.2
  unfolding handle_messages
  messages-Audited user read a g =
      with_slot-Audited (user_id_of user) _ _
        (λ adapter. serve_messages-Audited l (user_id_of user) (fields_read read) adapter a)
