-- ===== src/Cis/SessionManager.antt =====
-- src/cis/session_manager.cpp and src/cis/offline_session.cpp. A session object is its address, and a
-- std::shared_ptr one of the uses that are counted for it; a weak pointer can be locked while there is
-- one. The std::map of the sessions is a function from its keys. The file with the log of a session, as
-- the constructor of offline_session reads it by std::regex, is a parameter.
pub mod Sharing
pub mod Calls
use cis1_webui_native_srv_cp.Prelude.{
  ℕ, zero, suc, ◌+◌, ◌-◌, ◌==◌, Bool, true, false, List, [], ◌∷◌, ◌++◌, Option, none, some, String,
  str_eq, if◌then◌else◌,
}
use cis1_webui_native_srv_cp.Cis.Session
use cis1_webui_native_srv_cp.Cis.Session.{
  Notice, log_entry, session_closed, Session, fresh, establish, emplace, find, notify, replay,
}

-- `offline_session`.
pub record OfflineSession (L : Type 0) : Type 0 where
  pub received_logs : List L
  pub subscribers : List (ℕ × ℕ)

pub data AnySession (L : Type 0) : Type 0 where
  online : Session L → AnySession L
  offline : OfflineSession L → AnySession L

pub record Object (L : Type 0) : Type 0 where
  pub session_id : String
  pub session : AnySession L

pub record SessionManager (L : Type 0) : Type 0 where
  pub sessions : String → Option ℕ
  pub object : ℕ → Option (Object L)
  pub uses : ℕ → ℕ
  -- Addresses from here on have never been taken.
  pub next : ℕ

abbrev pub put_key : {A : Type 0} → String → A → (String → A) → String → A
put_key k a f j = if str_eq j k then a else f j

abbrev pub put_at : {A : Type 0} → ℕ → A → (ℕ → A) → ℕ → A
put_at k a f j = if j == k then a else f j

module _ {L : Type 0} where
  -- The virtual operations of a session, by its class; an offline session is read when it is made.
  abbrev pub establish_any : AnySession L → AnySession L
  establish_any (online s) = online (establish s)
  establish_any (offline s) = offline s

  pub log_any : (ℕ → Bool) → L → AnySession L → AnySession L × List (ℕ × Notice L)
  log_any alive dto (online s) = let (s', notices) = Session.log alive dto s in (online s', notices)
  log_any alive dto (offline s) = (
    offline (record s { received_logs = s.received_logs ++ dto ∷ [] }),
    notify alive (log_entry dto) s.subscribers,
  )

  unfoldable pub subscribe_any : ℕ → ℕ → AnySession L → AnySession L × List (ℕ × Notice L)
  subscribe_any ws sub (online s) =
      let (s', notices) = Session.subscribe ws sub s in (online s', notices)
  subscribe_any ws sub (offline s) = (
    offline (record s { subscribers = emplace ws sub s.subscribers }),
    replay sub s.received_logs ++ (sub, session_closed) ∷ [],
  )

  pub get_subscriber_any : (ℕ → Bool) → ℕ → AnySession L → Option ℕ
  get_subscriber_any alive ws (online s) = Session.get_subscriber alive ws s
  get_subscriber_any alive ws (offline s) = elim (find ws s.subscribers) [
    | none ↦ none
    | some sub ↦ if alive sub then some sub else none
  ]

  pub finish_any : (ℕ → Bool) → AnySession L → AnySession L × List (ℕ × Notice L)
  finish_any alive (online s) = let (s', notices) = Session.finish alive s in (online s', notices)
  finish_any alive (offline s) = (offline s, [])

  pub on_timer_any : (ℕ → Bool) → Bool → Bool → AnySession L → AnySession L × List (ℕ × Notice L)
  on_timer_any alive aborted expired (online s) =
      let (s', notices) = Session.on_timer alive aborted expired s in (online s', notices)
  on_timer_any alive aborted expired (offline s) = (offline s, [])

  abbrev pub set_session : ℕ → Object L → AnySession L → SessionManager L → SessionManager L
  set_session a o s m = record m { object = put_at a (some (record o { session = s })) m.object }

  -- A new session in the map, with its uses: the pointer that is handed out, and for an online session
  -- that of its timer's handler.
  abbrev pub add_session : String → AnySession L → ℕ → SessionManager L → SessionManager L
  add_session id s count m = record {
    sessions = put_key id (some m.next) m.sessions;
    object = put_at m.next (some (record { session_id = id; session = s })) m.object;
    uses = put_at m.next count m.uses;
    next = m.next + 1;
  }

  abbrev pub use_again : ℕ → SessionManager L → SessionManager L
  use_again a m = record m { uses = put_at a (m.uses a + 1) m.uses }

  -- `weak_ptr::lock`, with the object.
  unfoldable pub lock : ℕ → SessionManager L → Option (Object L)
  lock a m = if m.uses a == 0 then none else m.object a

  -- `session_manager::connect`: the session's address; none where it follows a null pointer.
  unfoldable pub connect : String → SessionManager L → SessionManager L × Option ℕ
  unfolding lock
  connect id m = elim (m.sessions id) [
    | none ↦ (add_session id (online (establish fresh)) 2 m, some m.next)
    | some a ↦ elim (lock a m) [
      | none ↦ (m, none)
      | some o ↦ (use_again a (set_session a o (establish_any o.session) m), some a)
    ]
  ]

  -- `session_manager::subscribe`: the subscriber keeps a pointer to the session in the end, also where it
  -- was told in between that the session is closed.
  unfoldable pub subscribe :
      (String → Option (List L))
      → String
      → ℕ
      → ℕ
      → SessionManager L
      → SessionManager L × List (ℕ × Notice L)
  unfolding lock subscribe_any
  subscribe logs id ws sub m = elim (m.sessions id) [
    | some a ↦ elim (lock a m) [
      | none ↦ (m, [])
      | some o ↦
          let (s, notices) = subscribe_any ws sub o.session in
          (use_again a (set_session a o s m), notices)
    ]
    | none ↦ elim (logs id) [
      | some entries ↦
          let (s, notices) =
            subscribe_any ws sub (offline (record { received_logs = entries; subscribers = [] })) in
          (add_session id s 1 m, notices)
      | none ↦
          let (s, notices) = subscribe_any ws sub (online fresh) in (add_session id s 2 m, notices)
    ]
  ]

  unfoldable pub get_subscriber : (ℕ → Bool) → String → ℕ → SessionManager L → Option ℕ
  unfolding lock get_subscriber_any
  get_subscriber alive id ws m = elim (m.sessions id) [
    | none ↦ none
    | some a ↦ elim (lock a m) [ none ↦ none | some o ↦ get_subscriber_any alive ws o.session ]
  ]

  -- A call on the object at an address, through a pointer that is held.
  abbrev pub on_object :
      (AnySession L → AnySession L × List (ℕ × Notice L))
      → ℕ
      → SessionManager L
      → SessionManager L × List (ℕ × Notice L)
  on_object call a m = elim (lock a m) [
    | none ↦ (m, [])
    | some o ↦ let (s, notices) = call o.session in (set_session a o s m, notices)
  ]

  unfoldable pub finish_session :
      (ℕ → Bool) → String → SessionManager L → SessionManager L × List (ℕ × Notice L)
  unfolding lock finish_any
  finish_session alive id m = elim (m.sessions id) [
    | none ↦ (m, [])
    | some a ↦ on_object (finish_any alive) a m
  ]

  -- The end of a shared pointer. The last one runs the deleter, which erases the session's id.
  unfoldable pub release : ℕ → SessionManager L → SessionManager L
  release a m = elim (m.object a) [
    | none ↦ m
    | some o ↦
        if m.uses a == 1
        then record m {
          sessions = put_key o.session_id none m.sessions;
          object = put_at a none m.object;
          uses = put_at a 0 m.uses;
        }
        else record m { uses = put_at a (m.uses a - 1) m.uses }
  ]
