-- ===== src/Anthropic/Relay.antt =====
-- What a Messages client is sent of a stream, on every exit (api_handlers.go: streamMessages, after
-- its headers). A write that fails is one whose number `writes_ok` denies.
use gateway.Prelude.{
  ℕ, ◌+◌, String, Bool, true, false, Option, none, some, List, [], ◌∷◌, ◌++◌, map, length,
  if◌then◌else◌,
}
use gateway.Text.{StreamAudit, write}
use gateway.Stream.{
  ChunkMeta, Detail, apply_meta, no_detail, Outcome, client_disconnected, stream_interrupted,
}
use gateway.Anthropic.{SseEvent, StreamChunk, AnthropicStream, start, chunk, end_stream}

-- What stream.Recv gives: io.EOF, another error, or a payload with its meta.
pub data Received : Type 0 where
  eof : Received
  failed : Received
  frame : Option StreamChunk → ChunkMeta → Received

-- What is written: an event of the translator, or the error event of an interrupted stream.
pub data Written : Type 0 where
  event : SseEvent → Written
  error_event : Written

-- What reached the client, and what the handler keeps.
pub record Relayed : Type 0 where
  pub sent : List Written
  pub audit : StreamAudit
  pub detail : Detail
  pub outcome : Option Outcome

-- The events of one send that are written, from the n-th write on, and whether all are.
unfoldable pub send : (ℕ → Bool) → ℕ → List Written → List Written × Bool
send writes_ok n [] = ([], true)
send writes_ok n (e ∷ es) =
    let rest = send writes_ok (n + 1) es in
    if writes_ok n then (e ∷ rest.0, rest.1) else ([], false)

module _ (mint : ℕ → String) (writes_ok : ℕ → Bool) where
  -- send(tr.end()...): its result is not looked at.
  unfoldable pub close_stream : ℕ → AnthropicStream → StreamAudit → Detail → Relayed
  unfolding send
  close_stream n s a d = record {
    sent = (send writes_ok n (map event (end_stream s).1)).0;
    audit = a;
    detail = d;
    outcome = none;
  }

  -- The loop, from the n-th write on.
  unfoldable pub relay : ℕ → AnthropicStream → List Received → StreamAudit → Detail → Relayed
  unfolding send close_stream
  relay n s [] a d = close_stream n s a d
  relay n s (eof ∷ rs) a d = close_stream n s a d
  relay n s (failed ∷ rs) a d = record {
    sent = (send writes_ok n (error_event ∷ [])).0;
    audit = a;
    detail = d;
    outcome = some stream_interrupted;
  }
  relay n s (frame payload m ∷ rs) a d =
      let events = map event (chunk mint s payload).1 in
      let (wrote, all) = send writes_ok n events in
      let rest =
        relay (n + length events) (chunk mint s payload).0 rs (write a m.audit_text)
          (apply_meta m d) in
      if all
      then record rest { sent = wrote ++ rest.sent }
      else record { sent = wrote; audit = a; detail = d; outcome = some client_disconnected }

  -- streamMessages after the headers, under cfg.MaxMsgLen.
  unfoldable pub stream_messages : ℕ → AnthropicStream → List Received → Relayed
  unfolding send relay
  stream_messages max_msg_len s rs =
      let (begun, opening) = start s in
      let a : StreamAudit = record { limit = max_msg_len; buf = [] } in
      let (wrote, all) = send writes_ok 0 (event opening ∷ []) in
      let rest = relay 1 begun rs a no_detail in
      if all then record rest { sent = wrote ++ rest.sent } else record {
        sent = wrote;
        audit = a;
        detail = no_detail;
        outcome = some client_disconnected;
      }
