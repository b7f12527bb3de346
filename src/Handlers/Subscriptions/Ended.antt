-- ===== src/Handlers/Subscriptions/Ended.antt =====
-- A subscription to a session that is over, in src/websocket/handlers/session_subscribe.cpp.
use mathlib.Core.Option.{some-injective}
use cis1_webui_native_srv_cp.Prelude.{
  append_assoc, append-nil, ℕ, ◌+◌, ◌==◌, ◌≡◌, refl, sym, ap, ◌∙◌, List, [], ◌∷◌, ◌++◌, map, Option,
  none, some, String, arith, if◌then◌else◌, true, false, ◌<◌, Bool, Bool-cases, Option-cases, inl,
  inr,
}
use cis1_webui_native_srv_cp.Net.WebsocketQueue.{Queue, add_close_handler, remove_close_handler}
use cis1_webui_native_srv_cp.Cis.Session
use cis1_webui_native_srv_cp.Cis.Session.{
  find, Notice, Session, finished, session_closed, replay, log_entry,
}
use cis1_webui_native_srv_cp.Cis.SessionManager.{
  SessionManager, Object, online, lock, subscribe, release,
}
use cis1_webui_native_srv_cp.Cis.SessionManager.Sharing.{IsSound}
use cis1_webui_native_srv_cp.Cis.SessionManager.Calls.{lock-named}
use cis1_webui_native_srv_cp.Handlers.Subscriptions.{
  Subscriber, Sent, cis_session_log_entry, cis_session_closed, Connection, holds, drop_handler,
  reset_session, unsubscribe, notified, notified_all, locked_session, told, keep, session_subscribe,
}

abbrev is_some : {A : Type 0} → Option A → Bool
is_some none = false
is_some (some a) = true

module _ {L : Type 0} where
  abbrev pub entries_sent : String → List L → List (Sent L)
  entries_sent id logs = map (cis_session_log_entry id) logs

  subscribe-ended :
      (logs : String → Option (List L)) (id : String) (ws sub a : ℕ) (m : SessionManager L)
      {o : Object L} {s : Session L}
      → IsSound m
      → m.sessions id ≡ some a
      → m.object a ≡ some o
      → o.session ≡ online s
      → s.state ≡ finished
      → (m' : SessionManager L) × (subscribe logs id ws sub m
          ≡ (m', replay sub s.received_logs ++ (sub, session_closed) ∷ []))
        × (m'.uses a ≡ m.uses a + 1)
        × (locked_session id m' ≡ some a)
        × (is_some (m'.object a) ≡ true)
  unfolding subscribe Session.subscribe locked_session lock
  subscribe-ended logs id ws sub a m {o} {s} h e is_o is_online is_finished =
      let (o', locked, is_o') = lock-named id a m h e in
      let same : o' ≡ o = some-injective _ _ (sym is_o' ∙ is_o) in
      rw (subscribe, e, locked, same, is_online, Session.subscribe, is_finished)
        (_, refl, ground arith, ground (arith, e), ground arith)

module _ {L : Type 0} where
  release-uses :
      (a : ℕ) (m : SessionManager L) (n : ℕ)
      → is_some (m.object a) ≡ true
      → m.uses a ≡ n + 1
      → 0 < n
      → (release a m).uses a ≡ n
  unfolding release
  release-uses a m n is_there is_n pos = elim (Option-cases (m.object a)) [
    | inl e ↦ cc (rw e at is_there)
    | inr (o, e) ↦ ground (arith, e, is_n, pos)
  ]

module _ {L A : Type 0} where
  notified_all-replay :
      (id : String) (sub : ℕ) (logs : List L) (rest : List (ℕ × Notice L)) (w : Connection L A)
      → (w.subscribers sub).session_id ≡ id
      → notified_all (replay sub logs ++ rest) w
        ≡ notified_all rest (record w { sent = w.sent ++ entries_sent id logs })
  unfolding notified_all notified replay
  notified_all-replay id sub [] rest w e = rw (append-nil w.sent) refl
  notified_all-replay id sub (l ∷ logs) rest w e =
      ap
        (λ named.
          notified_all (replay sub logs ++ rest)
            (record w { sent = w.sent ++ cis_session_log_entry named l ∷ [] }))
        e
      ∙ notified_all-replay id sub logs rest
          (record w { sent = w.sent ++ cis_session_log_entry id l ∷ [] }) e
      ∙ ap (λ sent. notified_all rest (record w { sent = sent }))
          (append_assoc w.sent (cis_session_log_entry id l ∷ []) (entries_sent id logs))

  unsubscribe-unset :
      (sub unset : ℕ) (w : Connection L A) (q : Queue A ℕ)
      → (w.subscribers sub).session ≡ none
      → (w.subscribers sub).subscribe_id ≡ unset
      → w.queue ≡ some q
      → find unset q.close_handlers ≡ none
      → unsubscribe sub w ≡ record w { queue = some (remove_close_handler q unset) }
  unfolding unsubscribe drop_handler
  unsubscribe-unset sub unset w q no_session is_unset is_q is_free =
      let reset : reset_session sub w ≡ w = rw (reset_session, no_session) refl in
      ap (drop_handler (w.subscribers sub).subscribe_id) reset
      ∙ ap (λ key. drop_handler key w) is_unset
      ∙ rw (drop_handler, is_q, is_free) refl

  notified-closed :
      (sub unset : ℕ) (id : String) (w : Connection L A) (q : Queue A ℕ)
      → w.subscribers sub ≡ record { session_id = id; session = none; subscribe_id = unset }
      → w.queue ≡ some q
      → find unset q.close_handlers ≡ none
      → notified w (sub, session_closed) ≡ record w {
        queue = some (remove_close_handler q unset);
        sent = w.sent ++ cis_session_closed id ∷ [];
      }
  unfolding notified
  notified-closed sub unset id w q is_made is_q is_free =
      let closed : String → Connection L A =
        λ named. record w { sent = w.sent ++ cis_session_closed named ∷ [] } in
      ap (λ (s : Subscriber). unsubscribe sub (closed s.session_id)) is_made
      ∙ unsubscribe-unset sub unset (closed id) q (ap (λ (s : Subscriber). s.session) is_made)
          (ap (λ (s : Subscriber). s.subscribe_id) is_made) is_q is_free

  told-ended :
      (sub unset : ℕ) (id : String) (logs : List L) (m : SessionManager L) (w : Connection L A)
      (q : Queue A ℕ)
      → w.queue ≡ some q
      → find unset q.close_handlers ≡ none
      → ((told sub unset id (m, replay sub logs ++ (sub, session_closed) ∷ []) w).sent
          ≡ w.sent ++ entries_sent id logs ++ cis_session_closed id ∷ [])
        × (((told sub unset id (m, replay sub logs ++ (sub, session_closed) ∷ []) w).subscribers
              sub).session
            ≡ locked_session id m)
        × ((told sub unset id (m, replay sub logs ++ (sub, session_closed) ∷ []) w).manager ≡ m)
        × ((told sub unset id (m, replay sub logs ++ (sub, session_closed) ∷ []) w).queue
            ≡ some (remove_close_handler q unset))
  unfolding told notified_all notified unsubscribe
  told-ended sub unset id logs m w q is_q is_free =
      let made : Subscriber = record { session_id = id; session = none; subscribe_id = unset } in
      let start : Connection L A = record w {
        manager = m;
        subscribers = λ other. if other == sub then made else w.subscribers other;
      } in
      let self : (sub == sub) ≡ true = ground arith in
      let after_log : Connection L A = record start { sent = w.sent ++ entries_sent id logs } in
      let all =
        notified_all-replay id sub logs ((sub, session_closed) ∷ []) start (rw self refl)
        ∙ notified-closed sub unset id after_log q (rw self refl) is_q is_free in
      rw (told, all, self) (refl, refl, refl, refl)

  keep-held :
      (sub : ℕ) (w : Connection L A) (q : Queue A ℕ)
      → w.queue ≡ some q
      → holds sub (add_close_handler q sub).0.close_handlers ≡ true
      → ((keep sub w).sent ≡ w.sent)
        × (((keep sub w).subscribers sub).session ≡ (w.subscribers sub).session)
        × ((keep sub w).manager ≡ w.manager)
        × ((keep sub w).queue ≡ some (add_close_handler q sub).0)
  unfolding keep
  keep-held sub w q is_q is_held =
      let self : (sub == sub) ≡ true = ground arith in
      rw (keep, is_q, is_held, self) (refl, refl, refl, refl)

  reset-some :
      (sub a : ℕ) (w : Connection L A)
      → (w.subscribers sub).session ≡ some a
      → ((reset_session sub w).sent ≡ w.sent)
        × (((reset_session sub w).subscribers sub).session ≡ none)
        × ((reset_session sub w).manager ≡ release a w.manager)
        × ((reset_session sub w).queue ≡ w.queue)
  reset-some sub a w has_session =
      let self : (sub == sub) ≡ true = ground arith in
      rw (reset_session, has_session, self) (refl, refl, refl, refl)

  keep-lost :
      (sub a : ℕ) (w : Connection L A) (q : Queue A ℕ)
      → w.queue ≡ some q
      → (w.subscribers sub).session ≡ some a
      → holds sub (add_close_handler q sub).0.close_handlers ≡ false
      → ((keep sub w).sent ≡ w.sent)
        × (((keep sub w).subscribers sub).session ≡ none)
        × ((keep sub w).manager ≡ release a w.manager)
        × ((keep sub w).queue ≡ some (add_close_handler q sub).0)
  unfolding keep
  keep-lost sub a w q is_q has_session is_lost =
      let self : (sub == sub) ≡ true = ground arith in
      let marked : Subscriber = record (w.subscribers sub) {
        subscribe_id = (add_close_handler q sub).1;
      } in
      let added : Connection L A = record w {
        queue = some (add_close_handler q sub).0;
        subscribers = λ other. if other == sub then marked else w.subscribers other;
      } in
      rw (keep, is_q, is_lost) (reset-some sub a added (rw self has_session))

  -- A client that subscribes to a session in the map that is finished, with no close handler under the
  -- key that is in the memory of the subscriber's id, is sent its log and the message that it is closed.
  -- Where the queue takes the subscriber's close handler, it keeps the session all the same, which has
  -- one use more; where it does not, the subscriber ends, and the session has the uses that it had.
  pub session_subscribe-keeps :
      (logs : String → Option (List L)) (ws sub unset : ℕ) (id : String) (a : ℕ)
      (w : Connection L A) (q : Queue A ℕ) {o : Object L} {s : Session L}
      → IsSound w.manager
      → w.manager.sessions id ≡ some a
      → w.manager.object a ≡ some o
      → o.session ≡ online s
      → s.state ≡ finished
      → w.queue ≡ some q
      → find unset q.close_handlers ≡ none
      → ((session_subscribe logs ws sub unset id w).sent
          ≡ w.sent ++ entries_sent id s.received_logs ++ cis_session_closed id ∷ [])
        × ((session_subscribe logs ws sub unset id w).queue
            ≡ some (add_close_handler (remove_close_handler q unset) sub).0)
        × (((session_subscribe logs ws sub unset id w).subscribers sub).session ≡ (
            if holds sub (add_close_handler (remove_close_handler q unset) sub).0.close_handlers
            then some a
            else none))
        × ((session_subscribe logs ws sub unset id w).manager.uses a
            ≡ w.manager.uses a
              + (if holds sub
                    (add_close_handler (remove_close_handler q unset) sub).0.close_handlers
                  then 1
                  else 0))
  unfolding session_subscribe
  session_subscribe-keeps logs ws sub unset id a w q {o} {s} h e is_o is_online is_finished is_q
        is_free =
      let (m', is_m', uses, is_locked, is_there) =
        subscribe-ended logs id ws sub a w.manager h e is_o is_online is_finished in
      let answer : SessionManager L × List (ℕ × Notice L) =
        (m', replay sub s.received_logs ++ (sub, session_closed) ∷ []) in
      let told_w = told sub unset id answer w in
      let (sent, session, manager, queue) =
        told-ended sub unset id s.received_logs m' w q is_q is_free in
      let left = remove_close_handler q unset in
      elim (Bool-cases (holds sub (add_close_handler left sub).0.close_handlers)) [
        | inl held ↦
            let (sent', session', manager', queue') = keep-held sub told_w left queue held in
            rw (session_subscribe, is_m', held)
              (
                sent' ∙ sent,
                queue',
                session' ∙ session ∙ is_locked,
                ap (λ (x : SessionManager L). x.uses a) (manager' ∙ manager) ∙ uses,
              )
        | inr lost ↦
            let (sent', session', manager', queue') =
              keep-lost sub a told_w left queue (session ∙ is_locked) lost in
            let back = release-uses a m' (w.manager.uses a) is_there uses (h.used id a e) in
            rw (session_subscribe, is_m', lost)
              (
                sent' ∙ sent,
                queue',
                session',
                ap (λ (x : SessionManager L). x.uses a) (manager' ∙ ap (release a) manager)
                    ∙ back
                    ∙ omega arith,
              )
      ]
