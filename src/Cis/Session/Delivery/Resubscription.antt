-- ===== src/Cis/Session/Delivery/Resubscription.antt =====
-- A second subscription of a websocket session to one session of src/cis/session.cpp. The entry of
-- the first stays in the map after its object is gone, and `emplace` does not replace it.
use cis1_webui_native_srv_cp.Prelude.{
  ℕ, ◌+◌, ◌≤◌, ◌<◌, ◌≡◌, ◌≢◌, refl, ap, ◌∙◌, false, List, [], ◌∷◌, ◌++◌, none, some, arith,
  append-nil, All,
}
use cis1_webui_native_srv_cp.Cis.Session.{
  emplace, find, Session, establish, log, subscribe, finish, on_timer, is_not_established,
}
use cis1_webui_native_srv_cp.Cis.Session.Delivery.{
  count, Operation, establishes, logs, subscribes, finishes, times_out, step, run, heard,
  heard-append, heard-nil, heard-subscribe, heard-subscribe_other, heard-notify_none,
  heard-notify_closed, heard-notify_not_established, count-emplace_other,
}

-- The keys ascend from the bound.
abbrev pub IsSorted : ℕ → List (ℕ × ℕ) → Type 0
IsSorted n [] = Unit {0}
IsSorted n ((k, s) ∷ m) = (n ≤ k) × IsSorted (1 + k) m

find_below : (k n : ℕ) (m : List (ℕ × ℕ)) → IsSorted n m → k < n → find k m ≡ none
unfolding find
find_below k n [] h l = refl
find_below k n ((j, s) ∷ m) h l = ground (arith, find_below k (1 + j) m h.1)

emplace_taken :
    (k s t n : ℕ) (m : List (ℕ × ℕ)) → IsSorted n m → find k m ≡ some t → emplace k s m ≡ m
unfolding emplace find
emplace_taken k s t n [] h e = cc
emplace_taken k s t n ((j, u) ∷ m) h e =
    ground (arith, find_below k (1 + j) m h.1, emplace_taken k s t (1 + j) m h.1)

module _ {L : Type 0} where
  -- The operation does not subscribe the object.
  abbrev pub SparesObject : ℕ → Operation L → Type 0
  SparesObject sub (subscribes id t) = t ≢ sub
  SparesObject sub _ = Unit {0}

  heard-step_absent :
      (sub : ℕ) (o : Operation L) (s : Session L)
      → SparesObject sub o
      → count sub s.subscribers ≡ 0
      → (count sub (step o s).0.subscribers ≡ 0) × (heard sub (step o s).1 ≡ [])
  unfolding step establish log subscribe finish on_timer
  heard-step_absent sub establishes s k h = (h, heard-nil sub)
  heard-step_absent sub (logs alive l) s k h = (h, heard-notify_none sub alive l s.subscribers h)
  heard-step_absent sub (subscribes id t) s k h = (
    ground (arith, count-emplace_other sub t id s.subscribers k),
    heard-subscribe_other sub t id s k,
  )
  heard-step_absent sub (finishes alive) s k h = (h, heard-notify_closed sub alive s.subscribers)
  heard-step_absent sub (times_out alive aborted expired) s k h =
      ground
        (arith, heard-nil {L = L} sub, heard-notify_not_established {L = L} sub alive s.subscribers)

  heard-run_absent :
      (sub : ℕ) (os : List (Operation L)) (s : Session L)
      → All (SparesObject sub) os
      → count sub s.subscribers ≡ 0
      → heard sub (run os s).1 ≡ []
  unfolding run
  heard-run_absent sub [] s k h = heard-nil sub
  heard-run_absent sub (o ∷ os) s k h =
      let (absent, now) = heard-step_absent sub o s k.0 h in
      heard-append sub (step o s).1 _
      ∙ ap (λ ls. ls ++ heard sub (run os (step o s).0).1) now
      ∙ heard-run_absent sub os (step o s).0 k.1 absent

  subscribe-not_counted :
      (id sub old n : ℕ) (s : Session L)
      → IsSorted n s.subscribers
      → find id s.subscribers ≡ some old
      → count sub s.subscribers ≡ 0
      → count sub (subscribe id sub s).0.subscribers ≡ 0
  unfolding subscribe
  subscribe-not_counted id sub old n s sorted taken new =
      ground (arith, emplace_taken id sub old n s.subscribers sorted taken)

  -- A second subscription under a key that is in the map gets the log so far and, whatever operations
  -- follow that do not subscribe its object, no entry more.
  pub heard-run_resubscribed :
      (id sub old n : ℕ) (os : List (Operation L)) (s : Session L)
      → is_not_established s.state ≡ false
      → IsSorted n s.subscribers
      → find id s.subscribers ≡ some old
      → count sub s.subscribers ≡ 0
      → All (SparesObject sub) os
      → heard sub (run (subscribes id sub ∷ os) s).1 ≡ s.received_logs
  unfolding run step
  heard-run_resubscribed id sub old n os s st sorted taken new k =
      heard-append sub (subscribe id sub s).1 _
      ∙ ap (◌++◌ (heard sub (subscribe id sub s).1)) (
          heard-run_absent sub os (subscribe id sub s).0 k
            (subscribe-not_counted id sub old n s sorted taken new))
      ∙ append-nil _
      ∙ heard-subscribe sub id s st
