-- ===== src/Tests/Builds.antt =====
-- Runs of src/cis/session_manager.cpp and src/cis/offline_session.cpp, and of
-- src/websocket/handlers/session_subscribe.cpp. A log entry is a number.
use cis1_webui_native_srv_cp.Prelude.{
  ℕ, ◌+◌, ◌≡◌, refl, true, List, [], ◌∷◌, ◌++◌, Option, none, some, String,
}
use cis1_webui_native_srv_cp.Cis.Session
use cis1_webui_native_srv_cp.Cis.Session.{find, Session, Notice, finished, session_closed, replay}
use cis1_webui_native_srv_cp.Cis.SessionManager.{connect, subscribe}
use cis1_webui_native_srv_cp.Cis.SessionManager.Sharing.{IsSound}
use cis1_webui_native_srv_cp.Cis.SessionManager.Calls.{
  Call, connecting, subscribing, finishing, releasing, after_calls, no_sessions,
  after_calls-connect, after_calls-IsSound, no_sessions-IsSound,
}
use cis1_webui_native_srv_cp.Net.WebsocketQueue.{
  Queue, add_close_handler, remove_close_handler, erase_key, insert_key, last_key,
}
use cis1_webui_native_srv_cp.Handlers.Subscriptions.{
  Connection, cis_session_closed, told, keep, notified, drop_handler, holds, notified_all,
  unsubscribe, session_subscribe,
}
use cis1_webui_native_srv_cp.Handlers.Subscriptions.Ended.{session_subscribe-keeps}

abbrev no_log : String → Option (List ℕ)
no_log id = none

-- A build that ended, with the pointers of its connection and of its timer gone.
abbrev ended : List (Call ℕ)
ended =
    connecting "a"
    ∷ subscribing no_log "a" 5 80
    ∷ finishing (λ s. true) "a"
    ∷ releasing 0
    ∷ releasing 0
    ∷ []

-- The subscriber's pointer was the last.
restarted_address : (connect "a" (after_calls (ended ++ releasing 0 ∷ []) no_sessions)).1 ≡ some 1
unfolding connect after_calls
restarted_address = refl

after_calls-connect_example :
    IsSound (after_calls ended no_sessions)
    × ((a : ℕ) × ((connect "a" (after_calls ended no_sessions)).1 ≡ some a))
after_calls-connect_example = after_calls-connect ended "a"

-- The queue has the handler of another subscriber, 70, under the key 0.
abbrev other : Queue ℕ ℕ
other = record { close_handlers = (0, 70) ∷ []; messages = [] }

abbrev site : Connection ℕ ℕ
site = record {
  manager = after_calls ended no_sessions;
  queue = some other;
  subscribers = λ sub. record { session_id = ""; session = none; subscribe_id = 0 };
  sent = [];
}

-- It is the one that goes, where the memory of the new subscriber's id has a 0.
other_removed :
    (session_subscribe no_log 6 90 0 "a" site).queue
    ≡ some (record { close_handlers = (0, 90) ∷ []; messages = [] })
unfolding session_subscribe told keep subscribe after_calls notified_all notified unsubscribe
    drop_handler find holds remove_close_handler add_close_handler erase_key insert_key last_key
    Session.finish Session.subscribe Session.establish Session.fresh replay
other_removed = refl

session_subscribe-keeps_example :
    ((session_subscribe no_log 6 90 7 "a" site).sent ≡ [] ++ [] ++ cis_session_closed "a" ∷ [])
    × ((session_subscribe no_log 6 90 7 "a" site).queue
        ≡ some (add_close_handler (remove_close_handler other 7) 90).0)
    × (((session_subscribe no_log 6 90 7 "a" site).subscribers 90).session ≡ some 0)
    × ((session_subscribe no_log 6 90 7 "a" site).manager.uses 0
        ≡ (after_calls ended no_sessions).uses 0 + 1)
unfolding after_calls Session.finish Session.subscribe Session.establish Session.fresh find holds
    remove_close_handler add_close_handler erase_key insert_key last_key
session_subscribe-keeps_example =
    session_subscribe-keeps no_log 6 90 7 "a" 0 site other
      (after_calls-IsSound ended no_sessions no_sessions-IsSound) refl refl refl refl refl refl
