-- ===== src/Handlers/Dispatch/Access.antt =====
-- Who may have which request of src/websocket/handlers carried out.
use cis1_webui_native_srv_cp.Prelude.{
  ◌≡◌, Bool, true, false, ◌&&◌, not, List, [], ◌∷◌, none, some, String, str_eq, arith,
}
use cis1_webui_native_srv_cp.Managers.{ClientInfo, Context, AuthManager, RightsManager, CisManager}
use cis1_webui_native_srv_cp.Handlers.{Message, send, send_error, send_error_text, Outcome}
use cis1_webui_native_srv_cp.Handlers.Dispatch.{
  Request, auth_login_pass, auth_login_token, auth_logout, user_change_pass, user_api_key_generate,
  user_api_key_get, user_api_key_remove, dispatch,
}

abbrev pub is_error : Message → Bool
is_error (send m) = false
is_error (send_error e text) = true
is_error (send_error_text text) = true

-- One answer, an error.
abbrev pub is_single_error : List Message → Bool
is_single_error (m ∷ []) = is_error m
is_single_error _ = false

abbrev pub is_login : Request → Bool
is_login (auth_login_pass email pass) = true
is_login (auth_login_token token) = true
is_login _ = false

-- The requests that only an administrator may make, of a client with the given email.
abbrev pub needs_admin : String → Request → Bool
needs_admin own (auth_login_pass email pass) = false
needs_admin own (auth_login_token token) = false
needs_admin own (auth_logout token) = false
needs_admin own (user_change_pass email old new) = not (str_eq own email)
needs_admin own (user_api_key_generate email) = not (str_eq own email)
needs_admin own (user_api_key_get email) = not (str_eq own email)
needs_admin own (user_api_key_remove email) = not (str_eq own email)
needs_admin own _ = true

module _ {W : Type 0} (auth : AuthManager W) (rights : RightsManager W) (cis : CisManager W) where
  -- The request changed nothing, and the only answer is an error.
  abbrev pub IsRefused : Context → W → Outcome W → Type 0
  IsRefused ctx w o = (o.world ≡ w) × (o.ctx ≡ ctx) × (is_single_error o.sent ≡ true)

  -- `is_admin` gives true, and no error code.
  abbrev pub is_granted : Bool × Bool → Bool
  is_granted (permitted, ec) = permitted && not ec

  -- Without a client that is logged in, every request but the two logins is refused: state and
  -- context stay, and the one answer is an error.
  pub dispatch-anonymous :
      (r : Request) (ctx : Context) (w : W)
      → ctx.client_info ≡ none
      → is_login r ≡ false
      → IsRefused ctx w (dispatch auth rights cis r ctx w)
  unfolding dispatch
  dispatch-anonymous (auth_login_pass email pass) ctx w h l = cc
  dispatch-anonymous (auth_login_token token) ctx w h l = cc
  dispatch-anonymous (auth_logout token) ctx w h l = ground arith
  dispatch-anonymous r ctx w h l = ground arith

  -- Of a logged-in client whose email `is_admin` does not grant (true without an error code), every
  -- request for administrators, and every one about another user's password or key, is refused:
  -- state and context stay, and the one answer is an error.
  pub dispatch-not_admin :
      (r : Request) (ctx : Context) (w : W) (info : ClientInfo)
      → ctx.client_info ≡ some info
      → is_granted (rights.is_admin info.email w) ≡ false
      → needs_admin info.email r ≡ true
      → IsRefused ctx w (dispatch auth rights cis r ctx w)
  unfolding dispatch
  dispatch-not_admin (auth_login_pass email pass) ctx w info h g n = cc
  dispatch-not_admin r ctx w info h g n = ground arith
