-- ===== src/Tests/Net.antt =====
-- Runs of src/net/websocket_queue.cpp and src/net/queued_websocket_session.cpp. A buffer is a number,
-- a callback too.
use cis1_webui_native_srv_cp.Prelude.{ℕ, ◌≡◌, true, [], ◌∷◌, arith}
use cis1_webui_native_srv_cp.Net.WebsocketQueue.{Message, empty_queue}
use cis1_webui_native_srv_cp.Net.WebsocketQueue.CloseHandlers.{
  add_all, saturated, add_all-keeps_three,
}
use cis1_webui_native_srv_cp.Net.QueuedSession.{Session, accepted, success, on_read, send_message}
use cis1_webui_native_srv_cp.Net.QueuedSession.Ordering.{
  IsOrdered, sends, here, next, Reach-IsOrdered,
}
use cis1_webui_native_srv_cp.Net.QueuedSession.Reading.{IsPaced, opened, answers, Answering-IsPaced}

abbrev hello : Message ℕ ℕ
hello = record { text = true; buffer = 7; on_write = 1 }

abbrev answered : Session ℕ ℕ
answered = on_read accepted success (hello ∷ [])

add_all-keeps_three_example :
    add_all {A = ℕ} {H = ℕ} empty_queue (10 ∷ 11 ∷ 12 ∷ 13 ∷ 14 ∷ [])
    ≡ saturated 10 11 12 empty_queue
add_all-keeps_three_example = add_all-keeps_three 10 11 12 (13 ∷ 14 ∷ [])

Reach-IsOrdered_example : IsOrdered (send_message (send_message accepted hello) hello)
Reach-IsOrdered_example = Reach-IsOrdered (next (next here (sends accepted hello)) (sends _ hello))

Answering-IsPaced_example : IsPaced answered
unfolding accepted
Answering-IsPaced_example =
    Answering-IsPaced (answers (hello ∷ []) opened (omega arith) (omega arith))
