-- ===== src/Managers.antt =====
-- The interfaces between the request handlers and the managers: include/auth_manager_interface.h,
-- include/rights_manager_interface.h, include/request_context.h, and, of
-- include/cis/cis_manager_interface.h, what the handlers of users and rights call. `W` is the state
-- behind them. A call with an `std::error_code&` returns whether it set the code, behind its value;
-- a call that may change the state returns the state first.
pub mod Cis
use cis1_webui_native_srv_cp.Prelude.{Bool, List, Option, String}

pub record UserInfo : Type 0 where
  pub email : String
  pub api_access_key : Option String
  pub is_admin : Bool

pub record ProjectRights : Type 0 where
  pub read : Bool
  pub write : Bool
  pub execute : Bool

pub record ProjectRightsEx : Type 0 where
  pub admin : Bool
  pub read : Bool
  pub write : Bool
  pub execute : Bool

-- `request_context::user_info`; an `api_access_key` that is not given is empty.
pub record ClientInfo : Type 0 where
  pub email : String
  pub active_token : String
  pub api_access_key : String

-- The part of `request_context` that the websocket handlers of users and rights use.
pub record Context : Type 0 where
  pub client_info : Option ClientInfo

pub record AuthManager (W : Type 0) : Type 0 where
  pub authenticate : String → String → W → W × Option String × Bool
  pub authenticate_token : String → W → W × Option String × Bool
  pub has_user : String → W → Bool × Bool
  pub generate_api_key : String → W → W × Option String × Bool
  pub get_api_key : String → W → Option String × Bool
  pub remove_api_key : String → W → W × Bool × Bool
  pub check_pass : String → String → W → Bool
  pub change_pass : String → String → W → W × Bool × Bool
  pub get_user_infos : W → List UserInfo × Bool
  pub delete_token : String → W → W × Bool × Bool
  pub add_user : String → String → Bool → W → W × Bool × Bool
  pub delete_user : String → W → W × Bool × Bool

pub record RightsManager (W : Type 0) : Type 0 where
  pub is_admin : String → W → Bool × Bool
  pub set_admin_status : String → Bool → W → W × Bool × Bool
  pub check_project_right : String → String → W → Option ProjectRights × Bool
  pub get_permissions : String → W → List (String × ProjectRights) × Bool
  pub get_permissions_by_project : String → W → List (String × ProjectRightsEx) × Bool
  pub set_user_project_permissions : String → String → ProjectRights → W → W × Bool × Bool

-- Whether `get_project_info` finds the project.
pub record CisManager (W : Type 0) : Type 0 where
  pub has_project_info : String → W → Bool
