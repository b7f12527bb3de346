-- ===== src/Handlers/Login.antt =====
-- src/websocket/handlers/login_pass.cpp, login_token.cpp and logout.cpp.
use cis1_webui_native_srv_cp.Prelude.{none, some, String, str_eq, if◌then◌else◌}
use cis1_webui_native_srv_cp.Managers.{ClientInfo, Context, AuthManager, RightsManager}
use cis1_webui_native_srv_cp.Handlers.{
  auth_error_wrong_credentials, auth_login_success, auth_logout_success, send, send_error, Outcome,
  answer, check_ec,
}

module _ {W : Type 0} (auth : AuthManager W) (rights : RightsManager W) where
  -- The end that both ways to log in share: the context is set before the status is asked for.
  logged_in : String → String → Context → W → Outcome W
  logged_in email token ctx w =
      let ctx' : Context = record ctx {
        client_info = some (record { email = email; active_token = token; api_access_key = "" });
      } in
      let (is_admin, ec) = rights.is_admin email w in
      check_ec ec w ctx' (answer w ctx' (send (auth_login_success token is_admin)))

  unfoldable pub login_pass : String → String → Context → W → Outcome W
  unfolding logged_in
  login_pass email pass ctx w =
      let (w', token, ec) = auth.authenticate email pass w in
      check_ec ec w' ctx (elim token [
        | none ↦ answer w' ctx (send_error auth_error_wrong_credentials "Wrong credentials.")
        | some t ↦ logged_in email t ctx w'
      ])

  unfoldable pub login_token : String → Context → W → Outcome W
  unfolding logged_in
  login_token token ctx w =
      let (w', email, ec) = auth.authenticate_token token w in
      check_ec ec w' ctx (elim email [
        | none ↦ answer w' ctx (send_error auth_error_wrong_credentials "Invalid token.")
        | some e ↦ logged_in e token ctx w'
      ])

  abbrev invalid_token : Context → W → Outcome W
  invalid_token ctx w = answer w ctx (send_error auth_error_wrong_credentials "Invalid token.")

  -- The branch of `logout` in which the token is one of the client's own.
  close_token : String → ClientInfo → Context → W → Outcome W
  close_token token info ctx w =
      let ctx' : Context =
        if str_eq token info.active_token then record ctx { client_info = none } else ctx in
      let (w', _, ec) = auth.delete_token token w in
      check_ec ec w' ctx' (answer w' ctx' (send auth_logout_success))

  unfoldable pub logout : String → Context → W → Outcome W
  unfolding close_token
  logout token ctx w = elim ctx.client_info [
    | none ↦ invalid_token ctx w
    | some info ↦
        let (w', email, ec) = auth.authenticate_token token w in
        check_ec ec w' ctx (elim email [
          | none ↦ invalid_token ctx w'
          | some e ↦
              if str_eq e info.email then close_token token info ctx w' else invalid_token ctx w'
        ])
  ]
