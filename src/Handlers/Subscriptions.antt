-- ===== src/Handlers/Subscriptions.antt =====
-- src/websocket/handlers/session_subscribe.cpp and src/websocket/handlers/session_unsubscribe.cpp, over
-- Cis.SessionManager and the websocket's queue, which is none where it is gone. A close handler is the
-- address of the subscriber that it keeps.
pub mod Ended
use cis1_webui_native_srv_cp.Prelude.{
  ℕ, ◌==◌, ◌||◌, false, if◌then◌else◌, Bool, List, [], ◌∷◌, ◌++◌, Option, none, some, String,
}
use cis1_webui_native_srv_cp.Net.WebsocketQueue.{Queue, add_close_handler, remove_close_handler}
use cis1_webui_native_srv_cp.Cis.Session.{
  Notice, find, log_entry, session_not_established, session_closed,
}
use cis1_webui_native_srv_cp.Cis.SessionManager.{
  SessionManager, lock, subscribe, get_subscriber, release,
}

-- `subscribe_id_` is not set by the constructor.
pub record Subscriber : Type 0 where
  pub session_id : String
  pub session : Option ℕ
  pub subscribe_id : ℕ

-- The messages that a subscriber sends, with its session's id.
pub data Sent (L : Type 0) : Type 0 where
  cis_session_log_entry : String → L → Sent L
  cis_session_not_established cis_session_closed : String → Sent L

pub record Connection (L A : Type 0) : Type 0 where
  pub manager : SessionManager L
  pub queue : Option (Queue A ℕ)
  pub subscribers : ℕ → Subscriber
  pub sent : List (Sent L)

module _ {L : Type 0} where
  -- What `set_session` is given: the session that the manager can lock.
  unfoldable pub locked_session : String → SessionManager L → Option ℕ
  unfolding lock
  locked_session id m = elim (m.sessions id) [
    | none ↦ none
    | some a ↦ elim (lock a m) [ none ↦ none | some o ↦ some a ]
  ]

-- Whether a subscriber is kept by a close handler.
unfoldable pub holds : ℕ → List (ℕ × ℕ) → Bool
holds sub [] = false
holds sub ((key, owner) ∷ handlers) = owner == sub || holds sub handlers

module _ {L A : Type 0} where
  abbrev pub set_subscriber : ℕ → Subscriber → Connection L A → Connection L A
  set_subscriber sub s w = record w {
    subscribers = λ other. if other == sub then s else w.subscribers other;
  }

  -- `session_.reset()`.
  abbrev pub reset_session : ℕ → Connection L A → Connection L A
  reset_session sub w = elim (w.subscribers sub).session [
    | none ↦ w
    | some a ↦
        set_subscriber sub (record (w.subscribers sub) { session = none })
          (record w { manager = release a w.manager })
  ]

  -- `remove_close_handler`, with the end of the subscriber that the handler kept: no other pointer to it
  -- is left but, of the one that is unsubscribed, one that holds no session any more.
  unfoldable pub drop_handler : ℕ → Connection L A → Connection L A
  unfolding remove_close_handler find release
  drop_handler key w = elim w.queue [
    | none ↦ w
    | some q ↦
        let w' = record w { queue = some (remove_close_handler q key) } in
        elim (find key q.close_handlers) [ none ↦ w' | some owner ↦ reset_session owner w' ]
  ]

  -- `subscriber::unsubscribe`.
  unfoldable pub unsubscribe : ℕ → Connection L A → Connection L A
  unfolding drop_handler release
  unsubscribe sub w = drop_handler (w.subscribers sub).subscribe_id (reset_session sub w)

  abbrev pub send : Sent L → Connection L A → Connection L A
  send message w = record w { sent = w.sent ++ message ∷ [] }

  -- `subscriber::log_entry`, `session_not_established` and `session_closed`.
  unfoldable pub notified : Connection L A → ℕ × Notice L → Connection L A
  unfolding unsubscribe
  notified w (sub, log_entry dto) =
      send (cis_session_log_entry (w.subscribers sub).session_id dto) w
  notified w (sub, session_not_established) =
      unsubscribe sub (send (cis_session_not_established (w.subscribers sub).session_id) w)
  notified w (sub, session_closed) =
      unsubscribe sub (send (cis_session_closed (w.subscribers sub).session_id) w)

  unfoldable pub notified_all : List (ℕ × Notice L) → Connection L A → Connection L A
  unfolding notified
  notified_all [] w = w
  notified_all (n ∷ ns) w = notified_all ns (notified w n)

  -- The call of the manager, as the new subscriber sees it: it is told about the session first, and
  -- given the pointer then.
  unfoldable pub told :
      ℕ → ℕ → String → SessionManager L × List (ℕ × Notice L) → Connection L A → Connection L A
  unfolding notified_all locked_session
  told sub unset id (manager, notices) w =
      let made : Subscriber = record { session_id = id; session = none; subscribe_id = unset } in
      let w' = notified_all notices (set_subscriber sub made (record w { manager = manager })) in
      set_subscriber sub (record (w'.subscribers sub) { session = locked_session id manager }) w'

  -- The close handler that keeps the subscriber. Where the queue is gone or did not take it, the handler's
  -- own pointer is the last one, and the subscriber ends with it.
  unfoldable pub keep : ℕ → Connection L A → Connection L A
  unfolding add_close_handler holds release
  keep sub w = elim w.queue [
    | none ↦ reset_session sub w
    | some q ↦
        let (q', key) = add_close_handler q sub in
        let w' =
          set_subscriber sub (record (w.subscribers sub) { subscribe_id = key })
            (record w { queue = some q' }) in
        if holds sub q'.close_handlers then w' else reset_session sub w'
  ]

  -- `session_subscribe`, with the new subscriber's address and what its memory has for the id.
  unfoldable pub session_subscribe :
      (String → Option (List L)) → ℕ → ℕ → ℕ → String → Connection L A → Connection L A
  unfolding told keep subscribe
  session_subscribe logs ws sub unset id w =
      keep sub (told sub unset id (subscribe logs id ws sub w.manager) w)

  -- `session_unsubscribe`.
  unfoldable pub session_unsubscribe : (ℕ → Bool) → ℕ → String → Connection L A → Connection L A
  unfolding unsubscribe get_subscriber
  session_unsubscribe alive ws id w = elim (get_subscriber alive id ws w.manager) [
    | none ↦ w
    | some sub ↦ unsubscribe sub w
  ]
