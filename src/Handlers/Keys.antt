-- ===== src/Handlers/Keys.antt =====
-- src/websocket/handlers/generate_api_key.cpp, get_api_key.cpp and remove_api_key.cpp.
use cis1_webui_native_srv_cp.Prelude.{none, some, String, str_eq, if◌then◌else◌}
use cis1_webui_native_srv_cp.Managers.{Context, AuthManager, RightsManager}
use cis1_webui_native_srv_cp.Handlers.{
  user_api_key_generate_success, user_api_key_get_success, user_api_key_remove_success, send,
  send_error_text, Outcome, answer, check_ec, access_denied,
}

module _ {W : Type 0} (auth : AuthManager W) (rights : RightsManager W) where
  -- The guard that the three share: the client's own key, or an administrator.
  abbrev pub own_or_admin : String → Context → W → Outcome W → Outcome W
  own_or_admin email ctx w rest = elim ctx.client_info [
    | none ↦ access_denied "Action not permitted." w ctx
    | some info ↦
        if str_eq info.email email
        then rest
        else let (is_admin, ec) = rights.is_admin info.email w in
          check_ec ec w ctx (if is_admin then rest else access_denied "Action not permitted." w ctx)
  ]

  unfoldable pub generate_api_key : String → Context → W → Outcome W
  generate_api_key email ctx w = own_or_admin email ctx w (
      let (w', api_key, ec) = auth.generate_api_key email w in
      check_ec ec w' ctx (elim api_key [
        | none ↦ answer w' ctx (send_error_text "Can't generate APIAccessSecretKey.")
        | some key ↦ answer w' ctx (send (user_api_key_generate_success key))
      ]))

  unfoldable pub get_api_key : String → Context → W → Outcome W
  get_api_key email ctx w = own_or_admin email ctx w (
      let (api_key, ec) = auth.get_api_key email w in
      check_ec ec w ctx (elim api_key [
        | none ↦ answer w ctx (send_error_text "Can't retrieve APIAccessSecretKey.")
        | some key ↦ answer w ctx (send (user_api_key_get_success key))
      ]))

  unfoldable pub remove_api_key : String → Context → W → Outcome W
  remove_api_key email ctx w = own_or_admin email ctx w (
      let (w', removed, ec) = auth.remove_api_key email w in
      check_ec ec w' ctx (
        if removed
        then answer w' ctx (send user_api_key_remove_success)
        else answer w' ctx (send_error_text "Can't remove APIAccessSecretKey.")))
