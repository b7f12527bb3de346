-- ===== src/Handlers/Routing/Replies.antt =====
-- How often a request about projects is answered, and when its handler throws.
use cis1_webui_native_srv_cp.Prelude.{◌+◌, ◌≤◌, ◌==◌, ◌≡◌, true, ◌&&◌, ◌||◌, length, arith}
use cis1_webui_native_srv_cp.Managers.{Context}
use cis1_webui_native_srv_cp.Handlers.Routing.{ProjectRequest, Bound, route}
use cis1_webui_native_srv_cp.Handlers.Routing.Access.{adds_job, is_anonymous, answers_moved}

module _ {W : Type 0} (b : Bound W) where
  -- While the websocket is there, a request is answered by one message at once, or it starts one call,
  -- never both, but for a schedule with a valid expression, whose answers may be given to a transaction
  -- that was moved from; no request starts two calls; and the handler throws exactly where a job
  -- is to be added without a client that is logged in.
  pub route-answers_once :
      (r : ProjectRequest) (ctx : Context) (w : W)
      → b.executor ≡ true
      → ((answers_moved b r
            || (length (route b r ctx w).sent + length (route b r ctx w).tasks == 1))
          ≡ true)
        × (length (route b r ctx w).tasks ≤ 1)
        × ((route b r ctx w).threw ≡ adds_job r && is_anonymous ctx)
  unfolding route
  route-answers_once r ctx w h = ground arith
