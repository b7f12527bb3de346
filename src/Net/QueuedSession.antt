-- ===== src/Net/QueuedSession.antt =====
-- src/net/queued_websocket_session.cpp with its queue: the pump that reads requests, hands them to
-- the handler, and writes the queued messages. The asynchronous operations are counted: `reads` and
-- `writes` are those that were started and have not completed, `wire` is what was handed to
-- `async_write`, in order, and `sent` what was handed to the queue. The timer of the base class and
-- the contents of the requests are left out; the handler is the list of messages that it sends.
pub mod Ordering
pub mod Reading
use cis1_webui_native_srv_cp.Prelude.{
  ℕ, suc, ◌+◌, ◌-◌, Bool, true, false, List, [], ◌∷◌, ◌++◌, if◌then◌else◌,
}
use cis1_webui_native_srv_cp.Net.WebsocketQueue
use cis1_webui_native_srv_cp.Net.WebsocketQueue.{
  Message, Queue, Effect, async_write, call, empty_queue, push, is_full,
}

-- The error ascii that a completion handler tells apart.
pub data ErrorCode : Type 0 where
  success operation_aborted closed failure : ErrorCode

pub record Session (A H : Type 0) : Type 0 where
  pub queue : Queue A H
  pub reads : ℕ
  pub writes : ℕ
  pub wire : List (Message A H)
  pub sent : List (Message A H)
  pub called : List H

module _ {A H : Type 0} where
  -- The effects of the queue on the session's socket and on the callbacks.
  pub perform : List (Effect A H) → Session A H → Session A H
  perform [] s = s
  perform (async_write m ∷ es) s =
      perform es (record s { writes = suc s.writes; wire = s.wire ++ m ∷ [] })
  perform (call h ∷ es) s = perform es (record s { called = s.called ++ h ∷ [] })

  -- `send_text` or `send_binary` of the session's queue.
  pub send_message : Session A H → Message A H → Session A H
  unfolding perform push
  send_message s m =
      let (q, es) = push s.queue m in perform es (record s { queue = q; sent = s.sent ++ m ∷ [] })

  pub send_messages : Session A H → List (Message A H) → Session A H
  send_messages s [] = s
  send_messages s (m ∷ ms) = send_messages (send_message s m) ms

  pub do_read : Session A H → Session A H
  do_read s = record s { reads = suc s.reads }

  -- The part of `on_read` behind its early returns.
  handle_request : Session A H → List (Message A H) → Session A H
  unfolding do_read is_full send_messages
  handle_request s ms = let s' = send_messages s ms in if is_full s'.queue then s' else do_read s'

  -- A read completes. After an error other than the two that return, `on_read` reports it and goes
  -- on as after a success.
  pub on_read : Session A H → ErrorCode → List (Message A H) → Session A H
  unfolding handle_request
  on_read s operation_aborted ms = record s { reads = s.reads - 1 }
  on_read s closed ms = record s { reads = s.reads - 1 }
  on_read s failure ms = handle_request (record s { reads = s.reads - 1 }) ms
  on_read s success ms = handle_request (record s { reads = s.reads - 1 }) ms

  -- The part of `on_write` behind its early returns.
  handle_written : Session A H → Session A H
  unfolding do_read perform WebsocketQueue.on_write
  handle_written s =
      let (q, es, was_full) = WebsocketQueue.on_write s.queue in
      let s' = perform es (record s { queue = q }) in if was_full then do_read s' else s'

  -- A write completes.
  pub on_write : Session A H → ErrorCode → Session A H
  unfolding handle_written
  on_write s success = handle_written (record s { writes = s.writes - 1 })
  on_write s _ = record s { writes = s.writes - 1 }

  -- `on_accept_success`, on a fresh session.
  unfoldable pub accepted : Session A H
  unfolding do_read empty_queue
  accepted =
      do_read
        (record { queue = empty_queue; reads = 0; writes = 0; wire = []; sent = []; called = [] })
