-- ===== src/Handlers/Users.antt =====
-- src/websocket/handlers/add_user.cpp, delete_user.cpp, list_users.cpp, set_admin_status.cpp and
-- change_pass.cpp.
use cis1_webui_native_srv_cp.Prelude.{
  Bool, ◌||◌, not, [], ◌∷◌, map, none, some, String, str_eq, if◌then◌else◌,
}
use cis1_webui_native_srv_cp.Managers.{UserInfo, Context, AuthManager, RightsManager}
use cis1_webui_native_srv_cp.Handlers.{
  admin_user_add_error_incorrect_credentials, admin_user_add_error_exists,
  user_error_user_not_found, user_error_pass_doesnt_match, user_change_pass_success,
  admin_user_add_success, admin_user_delete_success, admin_user_set_admin_status_success,
  admin_user_list_success, send, send_error, send_error_text, Outcome, answer, check_ec,
  access_denied, admin_only,
}

module _ {W : Type 0} (auth : AuthManager W) (rights : RightsManager W) where
  unfoldable pub add_user : String → String → Bool → Context → W → Outcome W
  add_user email pass admin ctx w =
      admin_only rights "Action not permitted." "Action not permitted" ctx w (
        if str_eq email "" || str_eq pass ""
        then answer w ctx
            (send_error admin_user_add_error_incorrect_credentials "Incorrect credentials.")
        else let (user_exists, ec) = auth.has_user email w in
          check_ec ec w ctx (
            if user_exists
            then answer w ctx (send_error admin_user_add_error_exists "User exists already")
            else let (w', success, ec') = auth.add_user email pass admin w in
              if not success || ec'
              then answer w' ctx (send_error_text "Internal error.")
              else answer w' ctx (send admin_user_add_success)))

  unfoldable pub delete_user : String → Context → W → Outcome W
  delete_user email ctx w = admin_only rights "Action not permitted" "Action not permitted" ctx w (
      let (user_exists, ec) = auth.has_user email w in
      check_ec ec w ctx (
        if not user_exists
        then answer w ctx (send_error user_error_user_not_found "User does not exist.")
        else let (w', success, ec') = auth.delete_user email w in
          if not success || ec'
          then answer w' ctx (send_error_text "Internal error.")
          else answer w' ctx (send admin_user_delete_success)))

  abbrev user_row : UserInfo → String × String × Bool
  user_row u = (u.email, elim u.api_access_key [ some key ↦ key | none ↦ "" ], u.is_admin)

  unfoldable pub list_users : Context → W → Outcome W
  list_users ctx w = admin_only rights "Action not permitted" "Action not permitted" ctx w (
      let (users, ec) = auth.get_user_infos w in
      check_ec ec w ctx (answer w ctx (send (admin_user_list_success (map user_row users)))))

  unfoldable pub set_admin_status : String → Bool → Context → W → Outcome W
  set_admin_status email admin ctx w =
      admin_only rights "Action not permitted" "Action not permitted" ctx w (
        let (user_exists, ec) = auth.has_user email w in
        check_ec ec w ctx (
          if not user_exists
          then answer w ctx (send_error user_error_user_not_found "User does not exist.")
          else let (w', success, ec') = rights.set_admin_status email admin w in
            if ec' || not success
            then answer w' ctx (send_error_text "Internal error.")
            else answer w' ctx (send admin_user_set_admin_status_success)))

  -- The lambda `change`: after the error message of a refused change it goes on to the success.
  change : String → String → Context → W → Outcome W
  change email new_password ctx w =
      let (w', done, ec) = auth.change_pass email new_password w in
      check_ec ec w' ctx (record {
        world = w';
        ctx = ctx;
        sent =
            if done
            then send user_change_pass_success ∷ []
            else send_error_text "Can't change password." ∷ send user_change_pass_success ∷ [];
      })

  -- `check_pass` is not given `ec`, which is clear behind the check before it.
  unfoldable pub change_pass : String → String → String → Context → W → Outcome W
  unfolding change
  change_pass email old_password new_password ctx w = elim ctx.client_info [
    | none ↦ access_denied "Action not permitted" w ctx
    | some info ↦
        let (is_admin, ec) = rights.is_admin info.email w in
        check_ec ec w ctx (
          if is_admin
          then change email new_password ctx w
          else if not (str_eq info.email email)
          then access_denied "Action not permitted." w ctx
          else if auth.check_pass info.email old_password w
          then change email new_password ctx w
          else answer w ctx (send_error user_error_pass_doesnt_match "Invalid password"))
  ]
