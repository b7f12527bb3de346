-- ===== src/Handlers/Routing.antt =====
-- The event dispatcher of src/application.cpp, `make_ws_router`, for the requests about entries of the
-- file system, projects, jobs, builds and schedules.
pub mod Access
pub mod Replies
pub mod Running
use cis1_webui_native_srv_cp.Prelude.{Bool, List, String}
use cis1_webui_native_srv_cp.Handlers.{Message}
use cis1_webui_native_srv_cp.Managers.{Context, RightsManager}
use cis1_webui_native_srv_cp.Managers.Cis.{Manager, PathLibrary}
use cis1_webui_native_srv_cp.Handlers.FsEntries.{
  Reply, move_fs_entry, new_directory, list_directory, get_fs_entry_info,
  set_fs_entry_executable_flag, remove_fs_entry, refresh_fs_entry,
}
use cis1_webui_native_srv_cp.Handlers.Projects.{
  list_projects, get_project_info, add_cis_project, remove_cis_project, add_cis_job, remove_cis_job,
  remove_cis_build,
}
use cis1_webui_native_srv_cp.Handlers.Jobs.{
  get_job_info, get_build_info, run_job, add_cis_cron, remove_cis_cron, list_cis_cron,
}

pub data ProjectRequest : Type 0 where
  cis_project_list_get : ProjectRequest
  cis_project_info cis_project_add cis_project_remove : String → ProjectRequest
  cis_job_add cis_job_remove cis_job_info : String → String → ProjectRequest
  cis_build_remove cis_build_info : String → String → String → ProjectRequest
  cis_job_run : String → String → Bool → List (String × String) → ProjectRequest
  fs_entry_info fs_entry_refresh fs_entry_remove fs_entry_new_dir fs_entry_list :
      String → ProjectRequest
  fs_entry_move : String → String → ProjectRequest
  fs_entry_set_executable_flag : String → Bool → ProjectRequest
  cis_cron_add cis_cron_remove : String → String → String → ProjectRequest
  cis_cron_list : String → ProjectRequest

-- What the handlers are bound to: whether the websocket is there, what a transaction that was moved from
-- makes of a message, croncpp's test of an expression, the paths, and the managers.
pub record Bound (W : Type 0) : Type 0 where
  pub executor : Bool
  pub moved_from : Message → List Message
  pub validate_expr : String → Bool
  pub lib : PathLibrary
  pub cis : Manager W
  pub rights : RightsManager W

module _ {W : Type 0} (b : Bound W) where
  unfoldable pub route : ProjectRequest → Context → W → Reply W
  unfolding move_fs_entry new_directory list_directory get_fs_entry_info
      set_fs_entry_executable_flag remove_fs_entry refresh_fs_entry list_projects get_project_info
      add_cis_project remove_cis_project add_cis_job remove_cis_job remove_cis_build get_job_info
      get_build_info run_job add_cis_cron remove_cis_cron list_cis_cron
  route cis_project_list_get = list_projects b.cis b.rights
  route (cis_project_info project) = get_project_info b.cis b.rights project
  route (cis_project_add project) = add_cis_project b.cis b.rights project
  route (cis_project_remove project) = remove_cis_project b.cis b.rights project
  route (cis_job_add project job) = add_cis_job b.lib b.cis b.rights project job
  route (cis_job_remove project job) = remove_cis_job b.lib b.cis b.rights project job
  route (cis_build_remove project job build) =
      remove_cis_build b.lib b.cis b.rights project job build
  route (cis_job_info project job) = get_job_info b.executor b.cis b.rights project job
  route (cis_job_run project job force params) =
      run_job b.executor b.cis b.rights project job force params
  route (cis_build_info project job build) =
      get_build_info b.executor b.cis b.rights project job build
  route (fs_entry_info path) = get_fs_entry_info b.lib b.cis b.rights path
  route (fs_entry_refresh path) = refresh_fs_entry b.lib b.cis b.rights path
  route (fs_entry_remove path) = remove_fs_entry b.lib b.cis b.rights path
  route (fs_entry_move old new) = move_fs_entry b.lib b.cis b.rights old new
  route (fs_entry_new_dir path) = new_directory b.lib b.cis b.rights path
  route (fs_entry_list path) = list_directory b.lib b.cis b.rights path
  route (fs_entry_set_executable_flag path flag) =
      set_fs_entry_executable_flag b.lib b.cis b.rights path flag
  route (cis_cron_add project job expr) =
      add_cis_cron b.executor b.cis b.rights b.moved_from b.validate_expr project job expr
  route (cis_cron_remove project job expr) =
      remove_cis_cron b.executor b.cis b.rights project job expr
  route (cis_cron_list mask) = list_cis_cron b.executor b.cis b.rights mask
