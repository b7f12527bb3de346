-- ===== src/Cis/Session.antt =====
-- src/cis/session.cpp: the log of a running build and the websocket sessions that follow it. A
-- subscriber object is its address; whether a weak pointer to one can be locked is decided where the
-- call is made, by a test `alive`. An operation returns the calls that it makes on subscribers, in
-- their order. The timer's own state is an argument of `on_timer`.
pub mod Delivery
use cis1_webui_native_srv_cp.Prelude.{
  ℕ, Bool, true, false, ◌&&◌, List, [], ◌∷◌, ◌++◌, map, Option, none, some, ltb, ◌==◌,
  if◌then◌else◌,
}

pub data State : Type 0 where
  pending not_established in_progress finished : State

pub data Notice (L : Type 0) : Type 0 where
  log_entry : L → Notice L
  session_not_established session_closed : Notice L

abbrev pub is_not_established : State → Bool
is_not_established not_established = true
is_not_established _ = false

abbrev pub is_finished : State → Bool
is_finished finished = true
is_finished _ = false

abbrev pub is_pending : State → Bool
is_pending pending = true
is_pending _ = false

-- std::map::emplace, which leaves a key that is there as it is.
pub emplace : ℕ → ℕ → List (ℕ × ℕ) → List (ℕ × ℕ)
emplace k s [] = (k, s) ∷ []
emplace k s ((j, t) ∷ m) =
    if ltb k j then (k, s) ∷ (j, t) ∷ m else if k == j then (j, t) ∷ m else (j, t) ∷ emplace k s m

unfoldable pub find : ℕ → List (ℕ × ℕ) → Option ℕ
find k [] = none
find k ((j, t) ∷ m) = if k == j then some t else find k m

module _ {L : Type 0} where
  -- The loop over `subscribers_`, with the same call on each that can be locked.
  pub notify : (ℕ → Bool) → Notice L → List (ℕ × ℕ) → List (ℕ × Notice L)
  notify alive n [] = []
  notify alive n ((k, s) ∷ m) = if alive s then (s, n) ∷ notify alive n m else notify alive n m

  unfoldable pub replay : ℕ → List L → List (ℕ × Notice L)
  replay s [] = []
  replay s (l ∷ ls) = (s, log_entry l) ∷ replay s ls

pub record Session (L : Type 0) : Type 0 where
  pub state : State
  pub received_logs : List L
  pub subscribers : List (ℕ × ℕ)

module _ {L : Type 0} where
  unfoldable pub fresh : Session L
  fresh = record { state = pending; received_logs = []; subscribers = [] }

  unfoldable pub establish : Session L → Session L
  establish s = record s { state = in_progress }

  pub log : (ℕ → Bool) → L → Session L → Session L × List (ℕ × Notice L)
  unfolding notify
  log alive dto s = (
    record s { received_logs = s.received_logs ++ dto ∷ [] },
    notify alive (log_entry dto) s.subscribers,
  )

  unfoldable pub subscribe : ℕ → ℕ → Session L → Session L × List (ℕ × Notice L)
  unfolding emplace replay
  subscribe id sub s =
      if is_not_established s.state then (s, (sub, session_not_established) ∷ []) else (
        record s { subscribers = emplace id sub s.subscribers },
        replay sub s.received_logs
            ++ (if is_finished s.state then (sub, session_closed) ∷ [] else []),
      )

  pub get_subscriber : (ℕ → Bool) → ℕ → Session L → Option ℕ
  unfolding find
  get_subscriber alive id s = elim (find id s.subscribers) [
    | none ↦ none
    | some sub ↦ if alive sub then some sub else none
  ]

  unfoldable pub finish : (ℕ → Bool) → Session L → Session L × List (ℕ × Notice L)
  unfolding notify
  finish alive s = (record s { state = finished }, notify alive session_closed s.subscribers)

  -- `aborted` is the error code operation_aborted, `expired` the test of the timer's expiry.
  pub on_timer : (ℕ → Bool) → Bool → Bool → Session L → Session L × List (ℕ × Notice L)
  unfolding notify
  on_timer alive aborted expired s =
      if aborted
      then (s, [])
      else if expired && is_pending s.state
      then (
        record s { state = not_established },
        notify alive session_not_established s.subscribers,
      )
      else (s, [])
