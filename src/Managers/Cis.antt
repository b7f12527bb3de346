-- ===== src/Managers/Cis.antt =====
-- include/cis/cis_manager_interface.h, include/cis/cis_structs_interface.h and include/fs_cache.h as
-- the handlers of projects see them. An object that a lookup hands out is the record of what its
-- methods give. A lookup may refresh the cache of the file system, so it returns the state too.
use cis1_webui_native_srv_cp.Prelude.{ℕ, Bool, List, Option, String, ℤ}
use cis1_webui_native_srv_cp.Dto.{Entry, BuildInfo}

-- A variant of `std::shared_ptr<fs_entry_interface>` and a pointer to something that it is more.
pub data Child (A : Type 0) : Type 0 where
  fs_entry : Entry → Child A
  special : A → Child A

pub record Build : Type 0 where
  pub entry : Entry
  pub info : BuildInfo
  pub files : List Entry

pub record Param : Type 0 where
  pub name : String
  pub default_value : String

pub record Job : Type 0 where
  pub entry : Entry
  pub params : List Param
  pub build_list : List (Child Build)
  pub script_entry : Option Entry
  pub params_entry : Option Entry
  pub conf_entry : Entry

pub record Project : Type 0 where
  pub entry : Entry
  pub job_list : List (Child Job)

-- What `fs().find` points to, with the entries from its `begin` to its `end`.
pub record Found : Type 0 where
  pub entry : Entry
  pub children : List Entry

pub record CronEntry : Type 0 where
  pub project : String
  pub job : String
  pub cron_expr : String

pub record ExecutionInfo : Type 0 where
  pub success : Bool
  pub exit_code : Option ℤ
  pub exit_message : Option String
  pub session_id : Option String

pub record Manager (W : Type 0) : Type 0 where
  pub refresh : String → W → W × Bool
  pub remove : String → W → W × Bool
  pub get_project_list : W → W × List (Child Project)
  pub create_project : String → W → W × Bool
  pub remove_project : Project → W → W × Bool
  pub get_project_info : String → W → W × Option Project
  pub get_job_info : String → String → W → W × Option Job
  pub get_build_info : String → String → String → W → W × Option Build
  -- `fs()`: `find`, and `remove` of what it points to.
  pub find : String → W → W × Option Found
  pub remove_found : Found → W → W
  pub move_entry : String → String → W → W × Bool
  pub create_directory : String → W → W × Bool
  -- `create_file_w`, and what is written to the stream that it gives.
  pub create_file_w : String → W → W × Bool
  pub write : String → String → W → W
  pub set_permissions : String → ℕ → W → W × Bool
  -- `std::filesystem::permissions` of a path on the disk, with the option add or remove.
  pub change_permissions : String → ℕ → Bool → W → W × Bool

-- The asynchronous calls, which are started behind a handler.
pub data Task : Type 0 where
  run_job : String → String → Bool → List (String × String) → String → Task
  add_cron remove_cron : String → String → String → Task
  list_cron : String → Task

-- std::filesystem::path, over the texts that paths are made of: `root_path`, the elements from `begin`
-- to `end`, the comparison, and the operator `/`.
pub record PathLibrary : Type 0 where
  pub root_path : String → String
  pub elements : String → List String
  pub is_same : String → String → Bool
  pub slash : String → String → String
