-- ===== src/Cis/Session/Delivery.antt =====
-- What a subscriber of a session of src/cis/session.cpp is told.
pub mod Resubscription
use cis1_webui_native_srv_cp.Prelude.{
  ℕ, ◌+◌, ◌≡◌, ◌≢◌, refl, sym, ap, ◌∙◌, Bool, true, false, List, [], ◌∷◌, ◌++◌, append-nil,
  append_assoc, Option, none, some, arith, if◌then◌else◌, ◌==◌, ==_iff, All, Bool-cases, inl, inr,
}
use cis1_webui_native_srv_cp.Cis.Session.{
  State, pending, not_established, in_progress, finished, Notice, log_entry,
  session_not_established, session_closed, emplace, find, notify, replay, Session, establish, log,
  subscribe, finish, on_timer, is_not_established,
}

-- How often an object is registered.
unfoldable pub count : ℕ → List (ℕ × ℕ) → ℕ
count s [] = 0
count s ((k, t) ∷ m) = if t == s then 1 + count s m else count s m

count-emplace_other : (s t k : ℕ) (m : List (ℕ × ℕ)) → t ≢ s → count s (emplace k t m) ≡ count s m
unfolding count emplace
count-emplace_other s t k [] h = ground arith
count-emplace_other s t k ((j, u) ∷ m) h = ground (arith, count-emplace_other s t k m h)

count-emplace_self :
    (s k : ℕ) (m : List (ℕ × ℕ)) → find k m ≡ none → count s (emplace k s m) ≡ 1 + count s m
unfolding count emplace find
count-emplace_self s k [] h = ground arith
count-emplace_self s k ((j, u) ∷ m) h = ground (arith, count-emplace_self s k m)

-- What the owner of the session and its clients do, each with what the locks of that moment give.
pub data Operation (L : Type 0) : Type 0 where
  establishes : Operation L
  logs : (ℕ → Bool) → L → Operation L
  subscribes : ℕ → ℕ → Operation L
  finishes : (ℕ → Bool) → Operation L
  times_out : (ℕ → Bool) → Bool → Bool → Operation L

module _ {L : Type 0} where
  pub step : Operation L → Session L → Session L × List (ℕ × Notice L)
  step establishes s = (establish s, [])
  step (logs alive l) s = log alive l s
  step (subscribes id sub) s = subscribe id sub s
  step (finishes alive) s = finish alive s
  step (times_out alive aborted expired) s = on_timer alive aborted expired s

  pub run : List (Operation L) → Session L → Session L × List (ℕ × Notice L)
  run [] s = (s, [])
  run (o ∷ os) s =
      let (s', calls) = step o s in let (s'', later) = run os s' in (s'', calls ++ later)

  -- The log entries among the calls on one subscriber.
  pub heard : ℕ → List (ℕ × Notice L) → List L
  heard s [] = []
  heard s ((t, log_entry l) ∷ calls) = if t == s then l ∷ heard s calls else heard s calls
  heard s ((t, _) ∷ calls) = heard s calls

  heard-append :
      (s : ℕ) (xs ys : List (ℕ × Notice L)) → heard s (xs ++ ys) ≡ heard s xs ++ heard s ys
  unfolding heard
  heard-append s [] ys = refl
  heard-append s ((t, log_entry l) ∷ xs) ys = ground (arith, heard-append s xs ys)
  heard-append s ((t, session_not_established) ∷ xs) ys = heard-append s xs ys
  heard-append s ((t, session_closed) ∷ xs) ys = heard-append s xs ys

  heard-replay : (s : ℕ) (ls : List L) → heard s (replay s ls) ≡ ls
  unfolding heard replay
  heard-replay s [] = refl
  heard-replay s (l ∷ ls) = ground (arith, heard-replay s ls)

  heard-replay_other : (s t : ℕ) (ls : List L) → t ≢ s → heard s (replay t ls) ≡ []
  unfolding heard replay
  heard-replay_other s t [] h = refl
  heard-replay_other s t (l ∷ ls) h = ground (arith, heard-replay_other s t ls h)

  heard-notify_none :
      (s : ℕ) (alive : ℕ → Bool) (l : L) (m : List (ℕ × ℕ))
      → count s m ≡ 0
      → heard s (notify alive (log_entry l) m) ≡ []
  unfolding heard notify count
  heard-notify_none s alive l [] h = refl
  heard-notify_none s alive l ((k, t) ∷ m) h = ground (arith, heard-notify_none s alive l m)

  heard-notify :
      (s : ℕ) (alive : ℕ → Bool) (l : L) (m : List (ℕ × ℕ))
      → alive s ≡ true
      → count s m ≡ 1
      → heard s (notify alive (log_entry l) m) ≡ l ∷ []
  unfolding heard notify count
  heard-notify s alive l [] a h = absurd (omega arith)
  heard-notify s alive l ((k, t) ∷ m) a h = elim (Bool-cases (t == s)) [
    | inl hit ↦ ground (arith, ap alive ((==_iff t s).0 hit), heard-notify_none s alive l m)
    | inr miss ↦ ground (arith, heard-notify s alive l m a)
  ]

  heard-notify_closed :
      (s : ℕ) (alive : ℕ → Bool) (m : List (ℕ × ℕ)) → heard s (notify alive session_closed m) ≡ []
  unfolding heard notify
  heard-notify_closed s alive [] = refl
  heard-notify_closed s alive ((k, t) ∷ m) = ground (arith, heard-notify_closed s alive m)

  heard-notify_not_established :
      (s : ℕ) (alive : ℕ → Bool) (m : List (ℕ × ℕ))
      → heard s (notify alive session_not_established m) ≡ []
  unfolding heard notify
  heard-notify_not_established s alive [] = refl
  heard-notify_not_established s alive ((k, t) ∷ m) =
      ground (arith, heard-notify_not_established s alive m)

  heard-nil : (s : ℕ) → heard s [] ≡ []
  unfolding heard
  heard-nil s = refl

  -- The calls of a subscription, on the new subscriber and on any other.
  heard-subscribe :
      (sub id : ℕ) (s : Session L)
      → is_not_established s.state ≡ false
      → heard sub (subscribe id sub s).1 ≡ s.received_logs
  unfolding subscribe heard
  heard-subscribe sub id s h = ground (
    arith,
    heard-append sub (replay sub s.received_logs) ((sub, session_closed) ∷ []),
    heard-append sub (replay sub s.received_logs) [],
    heard-replay sub s.received_logs,
    append-nil s.received_logs,
  )

  heard-subscribe_other :
      (sub t id : ℕ) (s : Session L) → t ≢ sub → heard sub (subscribe id t s).1 ≡ []
  unfolding subscribe heard
  heard-subscribe_other sub t id s h = ground (
    arith,
    heard-append sub (replay t s.received_logs) ((t, session_closed) ∷ []),
    heard-append sub (replay t s.received_logs) [],
    heard-replay_other sub t s.received_logs h,
  )

  subscribe-kept :
      (sub t id : ℕ) (s : Session L)
      → t ≢ sub
      → (count sub (subscribe id t s).0.subscribers ≡ count sub s.subscribers)
        × ((subscribe id t s).0.received_logs ≡ s.received_logs)
  unfolding subscribe
  subscribe-kept sub t id s h = ground (arith, count-emplace_other sub t id s.subscribers h)

  subscribe-registers :
      (id sub : ℕ) (s : Session L)
      → is_not_established s.state ≡ false
      → find id s.subscribers ≡ none
      → count sub s.subscribers ≡ 0
      → (count sub (subscribe id sub s).0.subscribers ≡ 1)
        × ((subscribe id sub s).0.received_logs ≡ s.received_logs)
  unfolding subscribe
  subscribe-registers id sub s st free new = ground (arith, count-emplace_self sub id s.subscribers)

  -- The operation registers no other subscription of the object, and finds it alive.
  abbrev pub Keeps : ℕ → Operation L → Type 0
  Keeps sub (logs alive l) = alive sub ≡ true
  Keeps sub (subscribes id t) = t ≢ sub
  Keeps sub _ = Unit {0}

  -- One operation, on a session with one registration of the object.
  heard-step :
      (sub : ℕ) (o : Operation L) (s : Session L)
      → Keeps sub o
      → count sub s.subscribers ≡ 1
      → (count sub (step o s).0.subscribers ≡ 1)
        × (s.received_logs ++ heard sub (step o s).1 ≡ (step o s).0.received_logs)
  unfolding step establish log finish on_timer
  heard-step sub establishes s k h = (h, rw heard-nil (append-nil _))
  heard-step sub (logs alive l) s k h = (h, rw (heard-notify sub alive l s.subscribers k h))
  heard-step sub (subscribes id t) s k h = ground (
    arith,
    heard-subscribe_other sub t id s k,
    append-nil s.received_logs,
    subscribe-kept sub t id s k,
  )
  heard-step sub (finishes alive) s k h =
      (h, rw (heard-notify_closed sub alive s.subscribers) (append-nil _))
  heard-step sub (times_out alive aborted expired) s k h = ground (
    arith,
    heard-nil sub,
    heard-notify_not_established sub alive s.subscribers,
    append-nil s.received_logs,
  )

  heard-run :
      (sub : ℕ) (os : List (Operation L)) (s : Session L)
      → All (Keeps sub) os
      → count sub s.subscribers ≡ 1
      → s.received_logs ++ heard sub (run os s).1 ≡ (run os s).0.received_logs
  unfolding run
  heard-run sub [] s k h = rw heard-nil (append-nil _)
  heard-run sub (o ∷ os) s k h =
      let (registered, now) = heard-step sub o s k.0 h in
      ap (◌++◌ s.received_logs) (heard-append sub (step o s).1 (run os (step o s).0).1)
      ∙ sym (append_assoc s.received_logs _ _)
      ∙ ap (λ ls. ls ++ heard sub (run os (step o s).0).1) now
      ∙ heard-run sub os (step o s).0 k.1 registered

  -- A new subscriber, under a key that is not taken, of a session that is not in the state
  -- `not_established`, hears, from its subscription on and after any operations that find it alive
  -- and subscribe no other object under its address, exactly the entries that the session has
  -- received, in order.
  pub heard-run_complete :
      (id sub : ℕ) (os : List (Operation L)) (s : Session L)
      → is_not_established s.state ≡ false
      → find id s.subscribers ≡ none
      → count sub s.subscribers ≡ 0
      → All (Keeps sub) os
      → heard sub (run (subscribes id sub ∷ os) s).1
        ≡ (run (subscribes id sub ∷ os) s).0.received_logs
  unfolding run step
  heard-run_complete id sub os s st free new k =
      heard-append sub (subscribe id sub s).1 _
      ∙ ap (λ ls. ls ++ heard sub (run os (subscribe id sub s).0).1) (heard-subscribe sub id s st)
      ∙ ap (λ ls. ls ++ heard sub (run os (subscribe id sub s).0).1) (sym registered.1)
      ∙ heard-run sub os (subscribe id sub s).0 k registered.0
    where
      registered :
          (count sub (subscribe id sub s).0.subscribers ≡ 1)
          × ((subscribe id sub s).0.received_logs ≡ s.received_logs)
      registered = subscribe-registers id sub s st free new
