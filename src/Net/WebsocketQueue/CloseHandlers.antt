-- ===== src/Net/WebsocketQueue/CloseHandlers.antt =====
-- The keys that `add_close_handler` of src/net/websocket_queue.cpp gives out.
use cis1_webui_native_srv_cp.Prelude.{◌-◌, ◌^◌, ◌≡◌, refl, List, [], ◌∷◌}
use cis1_webui_native_srv_cp.Net.WebsocketQueue.{Queue, empty_queue, add_close_handler}

module _ {A H : Type 0} where
  pub add_all : Queue A H → List H → Queue A H
  add_all q [] = q
  add_all q (h ∷ hs) = add_all (add_close_handler q h).0 hs

  -- After three handlers the greatest key stays where it is, and its predecessor is taken.
  abbrev pub saturated : H → H → H → Queue A H → Queue A H
  saturated f g h q = record q { close_handlers = (0, f) ∷ (2 ^ 32 - 2, h) ∷ (2 ^ 32 - 1, g) ∷ [] }

  add_saturated :
      (f g h k : H) (q : Queue A H)
      → add_close_handler (saturated f g h q) k ≡ (saturated f g h q, 2 ^ 32 - 2)
  unfolding add_close_handler
  add_saturated f g h k q = refl

  -- However many handlers are added to a fresh queue, with none removed, it keeps the first three
  -- only.
  pub add_all-keeps_three :
      (f g h : H) (hs : List H) → add_all empty_queue (f ∷ g ∷ h ∷ hs) ≡ saturated f g h empty_queue
  unfolding add_all add_close_handler empty_queue
  add_all-keeps_three f g h [] = refl
  add_all-keeps_three f g h (k ∷ hs) = add_all-keeps_three f g h hs
