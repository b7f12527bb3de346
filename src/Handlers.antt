-- ===== src/Handlers.antt =====
-- src/websocket/handlers: what the handlers of users, keys and rights share. A handler gets the state
-- `W` of the managers, the context of its websocket and a request, and gives the state, the context
-- and the messages that it sends, in their order. The log lines are left out.
pub mod Login
pub mod Users
pub mod Keys
pub mod Permissions
pub mod Dispatch
pub mod FsEntries
pub mod Projects
pub mod Jobs
pub mod Routing
pub mod Subscriptions
use cis1_webui_native_srv_cp.Dto.{FsEntry, BuildDto}
use cis1_webui_native_srv_cp.Managers.Cis.{CronEntry}
use cis1_webui_native_srv_cp.Prelude.{
  ℤ, Bool, List, [], ◌∷◌, String, if◌then◌else◌, Option, none, some,
}
use cis1_webui_native_srv_cp.Managers.{
  UserInfo, ProjectRights, ProjectRightsEx, ClientInfo, Context, RightsManager,
}

-- include/websocket/dto: the error and the success messages, by the names of their types.
pub data ErrorDto : Type 0 where
  auth_error_wrong_credentials user_permission_error_access_denied : ErrorDto
  admin_user_add_error_incorrect_credentials admin_user_add_error_exists : ErrorDto
  user_error_user_not_found user_error_pass_doesnt_match : ErrorDto
  auth_error_login_required fs_entry_error_invalid_path fs_entry_error_cant_move : ErrorDto
  fs_entry_error_cant_create_dir fs_entry_error_doesnt_exist cis_job_error_invalid_params : ErrorDto
  cis_project_error_doesnt_exist cis_project_error_already_exist : String → ErrorDto
  cis_job_error_already_exist cis_job_error_doesnt_exist : String → String → ErrorDto
  cis_build_error_doesnt_exist : String → String → String → ErrorDto

pub data SuccessDto : Type 0 where
  auth_login_success : String → Bool → SuccessDto
  auth_logout_success user_change_pass_success admin_user_add_success : SuccessDto
  admin_user_delete_success admin_user_set_admin_status_success : SuccessDto
  admin_user_list_success : List (String × String × Bool) → SuccessDto
  user_api_key_generate_success user_api_key_get_success : String → SuccessDto
  user_api_key_remove_success admin_user_permission_set_success : SuccessDto
  admin_user_permission_get_success : List (String × ProjectRights) → SuccessDto
  admin_project_permission_get_success : List (String × ProjectRightsEx) → SuccessDto
  fs_entry_move_success fs_entry_new_dir_success fs_entry_remove_success : SuccessDto
  fs_entry_refresh_success fs_entry_set_executable_flag_success : SuccessDto
  fs_entry_list_success cis_project_list_get_success cis_project_info_success :
      List FsEntry → SuccessDto
  fs_entry_info_success : FsEntry → SuccessDto
  cis_job_info_success : List FsEntry → List (String × String) → List FsEntry → SuccessDto
  cis_build_info_success : BuildDto → List FsEntry → SuccessDto
  cis_project_add_success cis_project_remove_success cis_job_add_success : SuccessDto
  cis_job_remove_success cis_build_remove_success cis_cron_add_success : SuccessDto
  cis_cron_remove_success : SuccessDto
  cis_cron_list_success : List CronEntry → SuccessDto
  cis_job_run_success : String → SuccessDto
  cis_job_finished : String → ℤ → Option String → Option String → SuccessDto

-- `tr.send(res)`, `tr.send_error(err, text)` and `tr.send_error(text)`.
pub data Message : Type 0 where
  send : SuccessDto → Message
  send_error : ErrorDto → String → Message
  send_error_text : String → Message

pub record Outcome (W : Type 0) : Type 0 where
  pub world : W
  pub ctx : Context
  pub sent : List Message

module _ {W : Type 0} where
  abbrev pub answer : W → Context → Message → Outcome W
  answer w ctx m = record { world = w; ctx = ctx; sent = m ∷ [] }

  -- WSHU_CHECK_EC of include/websocket/handlers/utils/check_ec.h, in front of the rest.
  abbrev pub check_ec : Bool → W → Context → Outcome W → Outcome W
  check_ec ec w ctx rest = if ec then answer w ctx (send_error_text "Internal error.") else rest

  abbrev pub access_denied : String → W → Context → Outcome W
  access_denied text w ctx = answer w ctx (send_error user_permission_error_access_denied text)

  -- The guard of the administrators' handlers: a client is logged in, and its email is that of an
  -- administrator. The texts are those of the two refusals.
  abbrev pub admin_only : RightsManager W → String → String → Context → W → Outcome W → Outcome W
  admin_only rights refusal1 refusal2 ctx w rest = elim ctx.client_info [
    | none ↦ access_denied refusal1 w ctx
    | some info ↦
        let (permitted, ec) = rights.is_admin info.email w in
        check_ec ec w ctx (if permitted then rest else access_denied refusal2 w ctx)
  ]
