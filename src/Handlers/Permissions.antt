-- ===== src/Handlers/Permissions.antt =====
-- src/websocket/handlers/get_user_permissions.cpp, set_user_permissions.cpp and
-- get_project_permissions.cpp.
pub mod Loop
use cis1_webui_native_srv_cp.Prelude.{
  Bool, true, false, not, List, [], ◌∷◌, Option, none, some, String, if◌then◌else◌,
}
use cis1_webui_native_srv_cp.Managers.{
  ProjectRights, ClientInfo, Context, RightsManager, CisManager,
}
use cis1_webui_native_srv_cp.Handlers.{
  cis_project_error_doesnt_exist, admin_user_permission_set_success,
  admin_user_permission_get_success, admin_project_permission_get_success, send, send_error,
  send_error_text, Outcome, answer, check_ec, admin_only,
}

module _ {W : Type 0} (cis : CisManager W) (rights : RightsManager W) where
  unfoldable pub get_user_permissions : String → Context → W → Outcome W
  get_user_permissions email ctx w =
      admin_only rights "Action not permitted" "Action not permitted" ctx w (
        let (permissions, ec) = rights.get_permissions email w in
        check_ec ec w ctx (answer w ctx (send (admin_user_permission_get_success permissions))))

  -- The loop over the request's permissions stops at the first error code. Whether a permission was
  -- set is not looked at.
  pub set_permissions : String → List (String × ProjectRights) → Context → W → Outcome W
  set_permissions email [] ctx w = answer w ctx (send admin_user_permission_set_success)
  set_permissions email ((project, perm) ∷ perms) ctx w =
      let (w', _, ec) = rights.set_user_project_permissions email project perm w in
      let rest = set_permissions email perms ctx w' in check_ec ec w' ctx rest

  unfoldable pub set_user_permissions :
      String → List (String × ProjectRights) → Context → W → Outcome W
  unfolding set_permissions
  set_user_permissions email permissions ctx w =
      admin_only rights "Action not permitted" "Action not permitted" ctx w
        (set_permissions email permissions ctx w)

  unfoldable pub get_project_permissions : String → Context → W → Outcome W
  get_project_permissions project ctx w =
      admin_only rights "Action not permitted" "Action not permitted" ctx w (
        if not (cis.has_project_info project w)
        then answer w ctx (send_error (cis_project_error_doesnt_exist "") "Project doesn't exist.")
        else let (permissions, ec) = rights.get_permissions_by_project project w in
          check_ec ec w ctx
            (answer w ctx (send (admin_project_permission_get_success permissions))))
