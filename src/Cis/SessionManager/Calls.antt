-- ===== src/Cis/SessionManager/Calls.antt =====
-- Any sequence of calls about the sessions of src/cis/session_manager.cpp.
use cis1_webui_native_srv_cp.Prelude.{
  ℕ, ◌==◌, ◌≡◌, refl, Bool, false, List, [], ◌∷◌, Option, none, some, String, Bool-cases,
  Option-cases, inl, inr, arith,
}
use cis1_webui_native_srv_cp.Cis.Session.{Notice, fresh, establish}
use cis1_webui_native_srv_cp.Cis.SessionManager.{
  AnySession, online, Object, SessionManager, establish_any, log_any, subscribe_any, finish_any,
  on_timer_any, set_session, lock, connect, subscribe, on_object, finish_session, release,
}
use cis1_webui_native_srv_cp.Cis.SessionManager.Sharing.{
  IsSound, set_session-IsSound, use_again-IsSound, add_session-IsSound, release-IsSound,
}

-- The calls of the rest of the program: on the manager, and through pointers that are held.
pub data Call (L : Type 0) : Type 0 where
  connecting : String → Call L
  subscribing : (String → Option (List L)) → String → ℕ → ℕ → Call L
  finishing : (ℕ → Bool) → String → Call L
  logging : (ℕ → Bool) → L → ℕ → Call L
  timing : (ℕ → Bool) → Bool → Bool → ℕ → Call L
  releasing : ℕ → Call L

module _ {L : Type 0} where
  -- The weak pointer of an entry can be locked.
  pub lock-named :
      (id : String) (a : ℕ) (m : SessionManager L)
      → IsSound m
      → m.sessions id ≡ some a
      → (o : Object L) × (lock a m ≡ some o) × (m.object a ≡ some o)
  unfolding lock
  lock-named id a m h e =
      let (o, is_o, _) = h.named id a e in
      let pos = h.used id a e in
      let in_use : (m.uses a == 0) ≡ false = ground arith in (o, rw in_use is_o, is_o)

  connect-answers :
      (id : String) (m : SessionManager L)
      → IsSound m
      → IsSound (connect id m).0 × ((a : ℕ) × ((connect id m).1 ≡ some a))
  unfolding connect
  connect-answers id m h = elim (Option-cases (m.sessions id)) [
    | inl e ↦
        rw (connect, e)
          (add_session-IsSound id (online (establish fresh)) 2 m e (omega arith) h, (m.next, refl))
    | inr (a, e) ↦
        let (o, locked, is_o) = lock-named id a m h e in
        let s = establish_any o.session in
        rw (connect, e, locked)
          (
            use_again-IsSound a (set_session a o s m) (set_session-IsSound a o s m is_o h),
            (a, refl),
          )
  ]

  subscribe-IsSound :
      (logs : String → Option (List L)) (id : String) (ws sub : ℕ) (m : SessionManager L)
      → IsSound m
      → IsSound (subscribe logs id ws sub m).0
  unfolding subscribe
  subscribe-IsSound logs id ws sub m h = elim (Option-cases (m.sessions id)) [
    | inr (a, e) ↦
        let (o, locked, is_o) = lock-named id a m h e in
        let s = (subscribe_any ws sub o.session).0 in
        rw (subscribe, e, locked)
          (use_again-IsSound a (set_session a o s m) (set_session-IsSound a o s m is_o h))
    | inl e ↦ elim (Option-cases (logs id)) [
      | inl no_log ↦ rw (subscribe, e, no_log) (add_session-IsSound id _ 2 m e (omega arith) h)
      | inr (entries, log_read) ↦
          rw (subscribe, e, log_read) (add_session-IsSound id _ 1 m e (omega arith) h)
    ]
  ]

  lock-object :
      (a : ℕ) (m : SessionManager L) {o : Object L} → lock a m ≡ some o → m.object a ≡ some o
  unfolding lock
  lock-object a m e = elim (Bool-cases (m.uses a == 0)) [
    | inl free ↦ cc (rw free at e)
    | inr in_use ↦ rw in_use at e
  ]

  on_object-IsSound :
      (call : AnySession L → AnySession L × List (ℕ × Notice L)) (a : ℕ) (m : SessionManager L)
      → IsSound m
      → IsSound (on_object call a m).0
  on_object-IsSound call a m h = elim (Option-cases (lock a m)) [
    | inl e ↦ rw (on_object, e) h
    | inr (o, e) ↦
        rw (on_object, e) (set_session-IsSound a o (call o.session).0 m (lock-object a m e) h)
  ]

  unfoldable pub after_call : Call L → SessionManager L → SessionManager L
  unfolding connect subscribe finish_session release log_any on_timer_any
  after_call (connecting id) m = (connect id m).0
  after_call (subscribing logs id ws sub) m = (subscribe logs id ws sub m).0
  after_call (finishing alive id) m = (finish_session alive id m).0
  after_call (logging alive dto a) m = (on_object (log_any alive dto) a m).0
  after_call (timing alive aborted expired a) m =
      (on_object (on_timer_any alive aborted expired) a m).0
  after_call (releasing a) m = release a m

  unfoldable pub after_calls : List (Call L) → SessionManager L → SessionManager L
  unfolding after_call
  after_calls [] m = m
  after_calls (call ∷ calls) m = after_calls calls (after_call call m)

  finish_session-IsSound :
      (alive : ℕ → Bool) (id : String) (m : SessionManager L)
      → IsSound m
      → IsSound (finish_session alive id m).0
  unfolding finish_session
  finish_session-IsSound alive id m h = elim (Option-cases (m.sessions id)) [
    | inl e ↦ rw (finish_session, e) h
    | inr (a, e) ↦ rw (finish_session, e) (on_object-IsSound (finish_any alive) a m h)
  ]

  after_call-IsSound :
      (call : Call L) (m : SessionManager L) → IsSound m → IsSound (after_call call m)
  unfolding after_call
  after_call-IsSound (connecting id) m h = (connect-answers id m h).0
  after_call-IsSound (subscribing logs id ws sub) m h = subscribe-IsSound logs id ws sub m h
  after_call-IsSound (finishing alive id) m h = finish_session-IsSound alive id m h
  after_call-IsSound (logging alive dto a) m h = on_object-IsSound (log_any alive dto) a m h
  after_call-IsSound (timing alive aborted expired a) m h =
      on_object-IsSound (on_timer_any alive aborted expired) a m h
  after_call-IsSound (releasing a) m h = release-IsSound a m h

  pub after_calls-IsSound :
      (calls : List (Call L)) (m : SessionManager L) → IsSound m → IsSound (after_calls calls m)
  unfolding after_calls
  after_calls-IsSound [] m h = h
  after_calls-IsSound (call ∷ calls) m h =
      after_calls-IsSound calls (after_call call m) (after_call-IsSound call m h)

  abbrev pub no_sessions : SessionManager L
  no_sessions = record { sessions = λ id. none; object = λ a. none; uses = λ a. 0; next = 0 }

  pub no_sessions-IsSound : IsSound no_sessions
  no_sessions-IsSound = record {
    used = λ id a e. cc e;
    named = λ id a e. cc e;
    listed = λ a o e. cc e;
    unused = λ a le. refl;
  }

  -- After any sequence of calls from an empty manager, every entry of the map leads to an object with
  -- the entry's id that is in use; every object has its entry, so there is one of an id at most; and a
  -- connection is answered with a session, never through a null pointer.
  pub after_calls-connect :
      (calls : List (Call L)) (id : String)
      → IsSound (after_calls calls no_sessions)
        × ((a : ℕ) × ((connect id (after_calls calls no_sessions)).1 ≡ some a))
  after_calls-connect calls id =
      let h = after_calls-IsSound calls no_sessions no_sessions-IsSound in
      (h, (connect-answers id (after_calls calls no_sessions) h).1)
