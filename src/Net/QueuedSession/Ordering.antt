-- ===== src/Net/QueuedSession/Ordering.antt =====
-- Messages of a session of src/net/queued_websocket_session.cpp go out one at a time and in order.
use cis1_webui_native_srv_cp.Prelude.{
  ℕ, ◌-◌, ◌<◌, ◌≡◌, refl, ap, ◌∙◌, sym, List, [], ◌∷◌, ◌++◌, append_assoc, append-nil, arith,
  length-append,
}
use cis1_webui_native_srv_cp.Net.WebsocketQueue.{Message}
use cis1_webui_native_srv_cp.Net.QueuedSession.{
  ErrorCode, success, operation_aborted, closed, failure, Session, send_message, send_messages,
  handle_request, on_read, handle_written, on_write, accepted,
}

module _ {A H : Type 0} where
  abbrev pub tail : List (Message A H) → List (Message A H)
  tail [] = []
  tail (m ∷ ms) = ms

  abbrev pub in_flight : List (Message A H) → ℕ
  in_flight [] = 0
  in_flight (m ∷ ms) = 1

  -- A write is under way exactly while the queue holds a message, its front, and what went to the
  -- wire, with what waits behind the front, is what was sent.
  pub record IsOrdered (s : Session A H) : Type 0 where
    pub one_write : s.writes ≡ in_flight s.queue.messages
    pub in_order : s.wire ++ tail s.queue.messages ≡ s.sent

  -- A session with the given messages in its queue.
  abbrev holding : Session A H → List (Message A H) → Session A H
  holding s ms = record s { queue = record s.queue { messages = ms } }

  send_holding :
      (ms : List (Message A H)) (s : Session A H) (m : Message A H)
      → IsOrdered (holding s ms)
      → IsOrdered (send_message (holding s ms) m)
  unfolding send_message
  send_holding [] s m v = record {
    one_write = ground arith;
    in_order =
        append-nil (s.wire ++ m ∷ [])
        ∙ ap (λ z. z ++ m ∷ []) (sym (append-nil s.wire) ∙ v.in_order);
  }
  send_holding (x ∷ ms) s m v = record {
    one_write = ground (arith, length-append ms (m ∷ []));
    in_order =
        ground (arith, length-append ms (m ∷ []), append_assoc s.wire ms (m ∷ []), v.in_order);
  }

  pub send-IsOrdered :
      (s : Session A H) (m : Message A H) → IsOrdered s → IsOrdered (send_message s m)
  send-IsOrdered s m v = send_holding s.queue.messages s m v

  sends-IsOrdered :
      (s : Session A H) (ms : List (Message A H)) → IsOrdered s → IsOrdered (send_messages s ms)
  unfolding send_messages
  sends-IsOrdered s [] v = v
  sends-IsOrdered s (m ∷ ms) v = sends-IsOrdered (send_message s m) ms (send-IsOrdered s m v)

  request-IsOrdered :
      (s : Session A H) (ms : List (Message A H)) → IsOrdered s → IsOrdered (handle_request s ms)
  unfolding handle_request
  request-IsOrdered s ms v = ground (arith, sends-IsOrdered s ms v)

  -- A completed read keeps the order, whatever the error code and whatever the handler sends.
  pub on_read-IsOrdered :
      (s : Session A H) (ec : ErrorCode) (ms : List (Message A H))
      → IsOrdered s
      → IsOrdered (on_read s ec ms)
  unfolding on_read
  on_read-IsOrdered s operation_aborted ms v = ground (arith, v)
  on_read-IsOrdered s closed ms v = ground (arith, v)
  on_read-IsOrdered s failure ms v = request-IsOrdered _ ms (ground (arith, v))
  on_read-IsOrdered s success ms v = request-IsOrdered _ ms (ground (arith, v))

  written_holding :
      (ms : List (Message A H)) (s : Session A H)
      → 0 < s.writes
      → IsOrdered (holding s ms)
      → IsOrdered (handle_written (record (holding s ms) { writes = s.writes - 1 }))
  unfolding handle_written
  written_holding [] s h v = absurd (omega (arith, v.one_write))
  written_holding (x ∷ []) s h v = ground (arith, v)
  written_holding (x ∷ y ∷ ms) s h v = ground (arith, append_assoc s.wire (y ∷ []) ms, v)

  -- So does a completed write, if a write is under way, unless it failed.
  pub on_write-IsOrdered :
      (s : Session A H) → 0 < s.writes → IsOrdered s → IsOrdered (on_write s success)
  unfolding on_write
  on_write-IsOrdered s h v = written_holding s.queue.messages s h v

  -- What happens to a session: someone sends a message, a read completes, a write completes.
  pub data Step : Session A H → Session A H → Type 0 where
    sends : (s : Session A H) (m : Message A H) → Step s (send_message s m)
    reads :
        (s : Session A H) (ec : ErrorCode) (ms : List (Message A H))
        → 0 < s.reads
        → Step s (on_read s ec ms)
    writes : (s : Session A H) → 0 < s.writes → Step s (on_write s success)

  pub data Reach (s : Session A H) : Session A H → Type 0 where
    here : Reach s s
    next : {t u : Session A H} → Reach s t → Step t u → Reach s u

  Step-IsOrdered : {s t : Session A H} → Step s t → IsOrdered s → IsOrdered t
  Step-IsOrdered (sends s m) v = send-IsOrdered s m v
  Step-IsOrdered (reads s ec ms h) v = on_read-IsOrdered s ec ms v
  Step-IsOrdered (writes s h) v = on_write-IsOrdered s h v

  accepted-IsOrdered : IsOrdered accepted
  unfolding accepted
  accepted-IsOrdered = record { one_write = refl; in_order = refl }

  -- After any interleaving of sends, completed reads and successful writes from the accepted
  -- session, a write is under way exactly while a message is queued, and what went to the wire,
  -- followed by what waits behind the front of the queue, is what was sent, in order.
  pub Reach-IsOrdered : {s : Session A H} → Reach accepted s → IsOrdered s
  Reach-IsOrdered here = accepted-IsOrdered
  Reach-IsOrdered (next r st) = Step-IsOrdered st (Reach-IsOrdered r)
