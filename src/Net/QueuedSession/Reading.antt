-- ===== src/Net/QueuedSession/Reading.antt =====
-- How many reads a session of src/net/queued_websocket_session.cpp has under way. The websocket
-- allows one at a time.
use cis1_webui_native_srv_cp.Prelude.{
  ℕ, zero, suc, ◌+◌, ◌-◌, ◌≤◌, ◌<◌, ◌≡◌, refl, ap, ◌∙◌, List, [], ◌∷◌, arith, if◌then◌else◌, length,
  length-append, leb,
}
use cis1_webui_native_srv_cp.Net.WebsocketQueue.{Message, Effect, async_write, call, limit}
use cis1_webui_native_srv_cp.Net.QueuedSession.{
  success, Session, perform, send_message, handle_request, on_read, on_write, accepted,
}
use cis1_webui_native_srv_cp.Net.QueuedSession.Ordering.{
  in_flight, Reach-IsOrdered, sends, writes, Reach, here, next,
}

module _ {A H : Type 0} where
  -- Room in the queue goes with a read under way, and a full queue with none.
  pub record IsPaced (s : Session A H) : Type 0 where
    pub bounded : length s.queue.messages ≤ limit
    pub paced : s.reads ≡ (if leb limit (length s.queue.messages) then 0 else 1)

  perform-reads : (es : List (Effect A H)) (s : Session A H) → (perform es s).reads ≡ s.reads
  unfolding perform
  perform-reads [] s = refl
  perform-reads (async_write m ∷ es) s = perform-reads es _
  perform-reads (call h ∷ es) s = perform-reads es _

  perform-queue : (es : List (Effect A H)) (s : Session A H) → (perform es s).queue ≡ s.queue
  unfolding perform
  perform-queue [] s = refl
  perform-queue (async_write m ∷ es) s = perform-queue es _
  perform-queue (call h ∷ es) s = perform-queue es _

  send-reads : (s : Session A H) (m : Message A H) → (send_message s m).reads ≡ s.reads
  unfolding send_message
  send-reads s m = rw perform-reads

  send-length :
      (s : Session A H) (m : Message A H)
      → length (send_message s m).queue.messages ≡ suc (length s.queue.messages)
  unfolding send_message
  send-length s m = rw perform-queue (omega (arith, length-append s.queue.messages (m ∷ [])))

  request-IsPaced :
      (s : Session A H) (ms : List (Message A H))
      → s.reads ≡ 0
      → length s.queue.messages < limit
      → length ms ≤ 1
      → IsPaced (handle_request s ms)
  unfolding handle_request
  request-IsPaced s [] r h one = ground arith
  request-IsPaced s (m ∷ []) r h one = ground (arith, send-reads s m, send-length s m)
  request-IsPaced s (m ∷ n ∷ ms) r h one = absurd (omega arith)

  -- A completed read keeps the pace, with the messages of at most one answer.
  on_read-IsPaced :
      (s : Session A H) (ms : List (Message A H))
      → 0 < s.reads
      → length ms ≤ 1
      → IsPaced s
      → IsPaced (on_read s success ms)
  unfolding on_read
  on_read-IsPaced s ms h one v = request-IsPaced _ ms (ground (arith, v)) (ground (arith, v)) one

  -- The reads and the queue behind a successful write.
  abbrev with_messages : Session A H → List (Message A H) → Session A H
  with_messages s ms = record s { queue = record s.queue { messages = ms } }

  abbrev IsCompleted : List (Message A H) → Session A H → Session A H → Type 0
  IsCompleted ms s t =
      (t.reads ≡ (if leb limit (length ms) then suc s.reads else s.reads))
      × (length t.queue.messages ≡ length ms - 1)

  written_by_messages :
      (ms : List (Message A H)) (s : Session A H)
      → IsCompleted ms s (on_write (with_messages s ms) success)
  unfolding on_write
  written_by_messages [] s = ground arith
  written_by_messages (x ∷ []) s = ground arith
  written_by_messages (x ∷ y ∷ ms) s = ground arith

  done : (s : Session A H) → IsCompleted s.queue.messages s (on_write s success)
  done s = written_by_messages s.queue.messages s

  on_write-IsPaced : (s : Session A H) → IsPaced s → IsPaced (on_write s success)
  on_write-IsPaced s v = ground (arith, done s, v)

  accepted-IsPaced : IsPaced accepted
  unfolding accepted
  accepted-IsPaced = record { bounded = omega arith; paced = refl }

  -- The runs in which nobody sends but the handler, and it sends one message at most.
  pub data Answering (s : Session A H) : Session A H → Type 0 where
    opened : Answering s s
    answers :
        {t : Session A H} (ms : List (Message A H))
        → Answering s t
        → 0 < t.reads
        → length ms ≤ 1
        → Answering s (on_read t success ms)
    written : {t : Session A H} → Answering s t → 0 < t.writes → Answering s (on_write t success)

  -- While reads and writes succeed: where nobody sends but the handler, and it sends at most one message
  -- for each request, a read is under way exactly while the queue has room, it is the only one, and the queue holds at most 64
  -- messages.
  pub Answering-IsPaced : {s : Session A H} → Answering accepted s → IsPaced s
  Answering-IsPaced opened = accepted-IsPaced
  Answering-IsPaced (answers ms r h one) = on_read-IsPaced _ ms h one (Answering-IsPaced r)
  Answering-IsPaced (written r h) = on_write-IsPaced _ (Answering-IsPaced r)

  -- Sends from elsewhere break that: a session's log entries come at any time.
  flood : ℕ → Session A H → Message A H → Session A H
  flood zero s m = s
  flood (suc n) s m = send_message (flood n s m) m

  flood-Reach : (n : ℕ) (s : Session A H) (m : Message A H) → Reach s (flood n s m)
  unfolding flood
  flood-Reach zero s m = here
  flood-Reach (suc n) s m = next (flood-Reach n s m) (sends _ m)

  flood-reads : (n : ℕ) (s : Session A H) (m : Message A H) → (flood n s m).reads ≡ s.reads
  unfolding flood
  flood-reads zero s m = refl
  flood-reads (suc n) s m = send-reads _ m ∙ flood-reads n s m

  flood-length :
      (n : ℕ) (s : Session A H) (m : Message A H)
      → length (flood n s m).queue.messages ≡ n + length s.queue.messages
  unfolding flood
  flood-length zero s m = omega arith
  flood-length (suc n) s m = omega (arith, send-length (flood n s m) m, flood-length n s m)

  positive_in_flight : (ms : List (Message A H)) → 0 < length ms → 0 < in_flight ms
  positive_in_flight [] h = h
  positive_in_flight (m ∷ ms) h = omega arith

  flooded-length : (m : Message A H) → length (flood limit accepted m).queue.messages ≡ limit
  unfolding accepted
  flooded-length m = flood-length limit _ m

  flooded-reads : (m : Message A H) → (flood limit accepted m).reads ≡ 1
  unfolding accepted
  flooded-reads m = flood-reads limit _ m

  full_write :
      (s : Session A H) → limit ≤ length s.queue.messages → (on_write s success).reads ≡ suc s.reads
  full_write s h = ground (arith, done s)

  -- Sends from elsewhere, such as the log entries of a build that the client follows, bring the
  -- accepted session to two reads under way at once.
  pub two_reads : (m : Message A H) → (s : Session A H) × Reach accepted s × (s.reads ≡ 2)
  two_reads m =
      let full = flooded-length m in
      let flooded = flood-Reach limit accepted m in
      let queued = positive_in_flight (flood limit accepted m).queue.messages (omega arith) in
      (
        on_write (flood limit accepted m) success,
        next flooded (writes _ (omega (arith, (Reach-IsOrdered flooded).one_write))),
        full_write _ (omega arith) ∙ ap suc (flooded-reads m),
      )
