-- ===== src/Handlers/Dispatch.antt =====
-- The event dispatcher of src/application.cpp, `make_ws_router`, for the requests about users, keys
-- and rights: the handler of each request.
pub mod Access
pub mod Answers
use cis1_webui_native_srv_cp.Prelude.{Bool, List, String}
use cis1_webui_native_srv_cp.Managers.{
  ProjectRights, Context, AuthManager, RightsManager, CisManager,
}
use cis1_webui_native_srv_cp.Handlers.{Outcome}
use cis1_webui_native_srv_cp.Handlers.Login.{login_pass, login_token, logout}
use cis1_webui_native_srv_cp.Handlers.Users.{
  add_user, delete_user, list_users, set_admin_status, change_pass,
}
use cis1_webui_native_srv_cp.Handlers.Keys.{generate_api_key, get_api_key, remove_api_key}
use cis1_webui_native_srv_cp.Handlers.Permissions.{
  get_user_permissions, set_user_permissions, get_project_permissions,
}

pub data Request : Type 0 where
  auth_login_pass : String → String → Request
  auth_login_token auth_logout : String → Request
  user_change_pass : String → String → String → Request
  admin_user_add : String → String → Bool → Request
  admin_user_delete : String → Request
  admin_user_list : Request
  admin_user_permission_get : String → Request
  admin_user_permission_set : String → List (String × ProjectRights) → Request
  admin_project_permission_get : String → Request
  admin_user_set_admin_status : String → Bool → Request
  user_api_key_generate user_api_key_get user_api_key_remove : String → Request

module _ {W : Type 0} (auth : AuthManager W) (rights : RightsManager W) (cis : CisManager W) where
  pub dispatch : Request → Context → W → Outcome W
  unfolding login_pass login_token logout add_user delete_user list_users set_admin_status
      change_pass generate_api_key get_api_key remove_api_key get_user_permissions
      set_user_permissions get_project_permissions
  dispatch (auth_login_pass email pass) = login_pass auth rights email pass
  dispatch (auth_login_token token) = login_token auth rights token
  dispatch (auth_logout token) = logout auth rights token
  dispatch (user_change_pass email old new) = change_pass auth rights email old new
  dispatch (admin_user_add email pass admin) = add_user auth rights email pass admin
  dispatch (admin_user_delete email) = delete_user auth rights email
  dispatch admin_user_list = list_users auth rights
  dispatch (admin_user_permission_get email) = get_user_permissions cis rights email
  dispatch (admin_user_permission_set email ps) = set_user_permissions cis rights email ps
  dispatch (admin_project_permission_get project) = get_project_permissions cis rights project
  dispatch (admin_user_set_admin_status email admin) = set_admin_status auth rights email admin
  dispatch (user_api_key_generate email) = generate_api_key auth rights email
  dispatch (user_api_key_get email) = get_api_key auth rights email
  dispatch (user_api_key_remove email) = remove_api_key auth rights email
