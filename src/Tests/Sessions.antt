-- ===== src/Tests/Sessions.antt =====
-- Runs of src/cis/session.cpp. A log entry is a number.
use cis1_webui_native_srv_cp.Prelude.{ℕ, ◌≡◌, refl, true, List, [], ◌∷◌, arith}
use cis1_webui_native_srv_cp.Cis.Session.{Session, in_progress, find}
use cis1_webui_native_srv_cp.Cis.Session.Delivery.{
  Operation, logs, subscribes, finishes, run, heard, count, heard-run_complete,
}
use cis1_webui_native_srv_cp.Cis.Session.Delivery.Resubscription.{heard-run_resubscribed}

abbrev building : Session ℕ
building = record { state = in_progress; received_logs = 1 ∷ 2 ∷ []; subscribers = [] }

abbrev later : List (Operation ℕ)
later = logs (λ s. true) 3 ∷ subscribes 6 90 ∷ finishes (λ s. true) ∷ []

heard-run_complete_example :
    heard 80 (run (subscribes 5 80 ∷ later) building).1
    ≡ (run (subscribes 5 80 ∷ later) building).0.received_logs
unfolding find count
heard-run_complete_example =
    heard-run_complete 5 80 later building refl refl refl (refl, (omega arith, (tt, tt)))

-- The object 70 of the first subscription is gone.
abbrev followed : Session ℕ
followed = record building { subscribers = (5, 70) ∷ [] }

heard-run_resubscribed_example : heard 80 (run (subscribes 5 80 ∷ later) followed).1 ≡ 1 ∷ 2 ∷ []
unfolding find count
heard-run_resubscribed_example =
    heard-run_resubscribed 5 80 70 0 later followed refl (omega arith) refl refl
      (tt, (omega arith, (tt, tt)))
