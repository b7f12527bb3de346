-- ===== src/Handlers/FsEntries.antt =====
-- src/path_utils.cpp, and the handlers of src/websocket/handlers for entries of the file system.
use cis1_webui_native_srv_cp.Prelude.{
  Bool, true, false, ◌||◌, not, List, [], ◌∷◌, map, Option, none, some, String, if◌then◌else◌,
}
use cis1_webui_native_srv_cp.Dto.{make_dir_entry}
use cis1_webui_native_srv_cp.Managers.{ProjectRights, Context, RightsManager}
use cis1_webui_native_srv_cp.Managers.Cis.{Manager, Task, PathLibrary}
use cis1_webui_native_srv_cp.Handlers.{
  Message, send, send_error, send_error_text, auth_error_login_required,
  user_permission_error_access_denied, fs_entry_error_invalid_path, fs_entry_error_cant_move,
  fs_entry_error_cant_create_dir, fs_entry_error_doesnt_exist, fs_entry_move_success,
  fs_entry_new_dir_success, fs_entry_remove_success, fs_entry_refresh_success,
  fs_entry_set_executable_flag_success, fs_entry_list_success, fs_entry_info_success,
}

-- What a handler of projects leaves: the state, the messages sent, the calls started, and whether an
-- exception leaves it. It does not change the context.
pub record Reply (W : Type 0) : Type 0 where
  pub world : W
  pub sent : List Message
  pub tasks : List Task
  pub threw : Bool

module _ {W : Type 0} where
  abbrev pub reply : W → Message → Reply W
  reply w m = record { world = w; sent = m ∷ []; tasks = []; threw = false }

  -- WSHU_CHECK_EC_MSG and WSHU_CHECK_EC.
  abbrev pub check_msg : String → Bool → W → Reply W → Reply W
  check_msg text ec w rest = if ec then reply w (send_error_text text) else rest

  abbrev pub check : Bool → W → Reply W → Reply W
  check = check_msg "Internal error."

  abbrev pub login_required : W → Reply W
  login_required w = reply w (send_error auth_error_login_required "Login required.")

  abbrev pub denied : W → Reply W
  denied w = reply w (send_error user_permission_error_access_denied "Action not permitted.")

  abbrev pub invalid_path : W → Reply W
  invalid_path w = reply w (send_error fs_entry_error_invalid_path "Invalid path.")

  abbrev pub no_entry : String → W → Reply W
  no_entry text w = reply w (send_error fs_entry_error_doesnt_exist text)

  -- The rest of a handler, with the email of the client.
  abbrev pub logged_in : Context → W → (String → Reply W) → Reply W
  logged_in ctx w rest = elim ctx.client_info [
    | none ↦ login_required w
    | some info ↦ rest info.email
  ]

abbrev pub allows : (ProjectRights → Bool) → Option ProjectRights → Bool
allows right none = false
allows right (some r) = right r

abbrev pub every_right : ProjectRights
every_right = record { read = true; write = true; execute = true }

abbrev pub can_read : ProjectRights → Bool
can_read r = r.read

abbrev pub can_write : ProjectRights → Bool
can_write r = r.write

abbrev pub validate_path : PathLibrary → String → Bool
validate_path lib path = lib.is_same (lib.root_path path) "/"

module _ {W : Type 0} (lib : PathLibrary) (rights : RightsManager W) where
  -- Over the elements of the path.
  abbrev pub rights_at : String → List String → W → Option ProjectRights × Bool
  rights_at email [] w = (none, false)
  rights_at email (root ∷ []) w = (none, false)
  rights_at email (root ∷ project ∷ rest) w =
      let (is_admin, ec) = rights.is_admin email w in
      if ec
      then (none, true)
      else if is_admin
      then (some every_right, false)
      else rights.check_project_right email project w

  abbrev pub get_path_rights : String → String → W → Option ProjectRights × Bool
  get_path_rights email path w = rights_at email (lib.elements path) w

  -- The guard of the handlers, in front of the rest.
  abbrev pub permitted_path : (ProjectRights → Bool) → String → String → W → Reply W → Reply W
  permitted_path right email path w rest =
      let (path_rights, ec) = get_path_rights email path w in
      check ec w (if allows right path_rights then rest else denied w)

module _ {W : Type 0} (lib : PathLibrary) (cis : Manager W) (rights : RightsManager W) where
  unfoldable pub move_fs_entry : String → String → Context → W → Reply W
  move_fs_entry old_path new_path ctx w = logged_in ctx w (λ email.
      if not (validate_path lib old_path) || not (validate_path lib new_path)
      then invalid_path w
      else permitted_path lib rights can_write email old_path w (
          permitted_path lib rights can_write email new_path w (
            let (w', ec) = cis.move_entry old_path new_path w in
            if ec
            then reply w' (send_error fs_entry_error_cant_move "Error on move.")
            else reply w' (send fs_entry_move_success))))

  unfoldable pub new_directory : String → Context → W → Reply W
  new_directory path ctx w = logged_in ctx w (λ email.
      if not (validate_path lib path)
      then invalid_path w
      else permitted_path lib rights can_write email path w (
          let (w', ec) = cis.create_directory path w in
          if ec
          then reply w'
              (send_error fs_entry_error_cant_create_dir "Error while creating directory.")
          else reply w' (send fs_entry_new_dir_success)))

  unfoldable pub list_directory : String → Context → W → Reply W
  list_directory path ctx w =
      if not (validate_path lib path)
      then invalid_path w
      else logged_in ctx w (λ email. permitted_path lib rights can_read email path w (
          let (w', found) = cis.find path w in
          elim found [
            | none ↦ no_entry "Path does not exists." w'
            | some it ↦ reply w' (send (fs_entry_list_success (map make_dir_entry it.children)))
          ]))

  unfoldable pub get_fs_entry_info : String → Context → W → Reply W
  get_fs_entry_info path ctx w =
      if not (validate_path lib path)
      then invalid_path w
      else logged_in ctx w (λ email. permitted_path lib rights can_read email path w (
          let (w', found) = cis.find path w in
          elim found [
            | none ↦ no_entry "Path does not exists." w'
            | some it ↦ reply w' (send (fs_entry_info_success (make_dir_entry it.entry)))
          ]))

  unfoldable pub set_fs_entry_executable_flag : String → Bool → Context → W → Reply W
  set_fs_entry_executable_flag path executable ctx w = logged_in ctx w (λ email.
      if not (validate_path lib path) || lib.is_same path "/"
      then invalid_path w
      else permitted_path lib rights can_write email path w (
          let (w', found) = cis.find path w in
          elim found [
            | none ↦ no_entry "Path does not exist." w'
            | some it ↦
                let (w'', ec) = cis.change_permissions it.entry.disk_path 64 executable w' in
                check ec w'' (reply w'' (send fs_entry_set_executable_flag_success))
          ]))

  unfoldable pub remove_fs_entry : String → Context → W → Reply W
  remove_fs_entry path ctx w = logged_in ctx w (λ email.
      if not (validate_path lib path) || lib.is_same path "/"
      then invalid_path w
      else permitted_path lib rights can_write email path w (
          let (w', removed) = cis.remove path w in
          if not removed
          then no_entry "Path does not exist." w'
          else reply w' (send fs_entry_remove_success)))

  unfoldable pub refresh_fs_entry : String → Context → W → Reply W
  refresh_fs_entry path ctx w = logged_in ctx w (λ email.
      if not (validate_path lib path)
      then invalid_path w
      else permitted_path lib rights can_read email path w (
          let (w', refreshed) = cis.refresh path w in
          if not refreshed
          then no_entry "Path does not exists." w'
          else reply w' (send fs_entry_refresh_success)))
