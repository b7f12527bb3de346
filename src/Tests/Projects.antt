-- ===== src/Tests/Projects.antt =====
-- Runs of the handlers of projects over a manager whose state is the list of the paths that were
-- made, and which has one project "p" with one job "j".
use cis1_webui_native_srv_cp.Prelude.{
  ◌≤◌, ◌==◌, ◌||◌, ◌+◌, ◌≡◌, refl, true, false, ◌&&◌, List, [], ◌∷◌, none, some, String, str_eq,
  length, if◌then◌else◌,
}
use cis1_webui_native_srv_cp.Dto.{Entry}
use cis1_webui_native_srv_cp.Managers.{ProjectRights, ClientInfo, Context, RightsManager}
use cis1_webui_native_srv_cp.Managers.Cis.{
  Project, Job, Manager, Task, run_job as run_job_task, PathLibrary,
}
use cis1_webui_native_srv_cp.Handlers.Jobs.{given_value, param_values}
use cis1_webui_native_srv_cp.Handlers.Jobs.Params.{IsFilled}
use cis1_webui_native_srv_cp.Handlers.Routing.{
  cis_job_add, cis_job_run, fs_entry_remove, Bound, route,
}
use cis1_webui_native_srv_cp.Handlers.Routing.Access.{
  executing, in_project, granted, looked, IsTurnedDown, answers_moved, adds_job, is_anonymous,
  route-not_granted,
}
use cis1_webui_native_srv_cp.Handlers.Routing.Replies.{route-answers_once}
use cis1_webui_native_srv_cp.Handlers.Routing.Running.{route-runs}

abbrev Made : Type 0
Made = List String

abbrev entry : String → Entry
entry name = record {
  disk_path = name;
  filename = name;
  relative_path = name;
  is_directory = true;
  is_regular_file = false;
  permissions = none;
}

abbrev project_p : Project
project_p = record { entry = entry "p"; job_list = [] }

abbrev job_j : Job
job_j = record {
  entry = entry "j";
  params =
      (record { name = "a"; default_value = "" })
      ∷ (record { name = "b"; default_value = "2" })
      ∷ [];
  build_list = [];
  script_entry = none;
  params_entry = none;
  conf_entry = entry "job.conf";
}

abbrev cis : Manager Made
cis = record {
  refresh = λ path w. (w, true);
  remove = λ path w. (w, true);
  get_project_list = λ w. (w, []);
  create_project = λ project w. (project ∷ w, false);
  remove_project = λ project w. (w, false);
  get_project_info = λ project w. (w, if str_eq project "p" then some project_p else none);
  get_job_info =
      λ project job w. (w, if str_eq project "p" && str_eq job "j" then some job_j else none);
  get_build_info = λ project job build w. (w, none);
  find = λ path w. (w, none);
  remove_found = λ it w. w;
  move_entry = λ old new w. (new ∷ w, false);
  create_directory = λ path w. (path ∷ w, false);
  create_file_w = λ path w. (path ∷ w, false);
  write = λ path text w. w;
  set_permissions = λ path perms w. (w, false);
  change_permissions = λ path perms add w. (w, false);
}

abbrev all_of_p : ProjectRights
all_of_p = record { read = true; write = true; execute = true }

-- "ann" has the rights to "p", and there is no administrator.
abbrev rights : RightsManager Made
rights = record {
  is_admin = λ email w. (false, false);
  set_admin_status = λ email admin w. (w, true, false);
  check_project_right = λ email project w.
      (if str_eq email "ann" && str_eq project "p" then some all_of_p else none, false);
  get_permissions = λ email w. ([], false);
  get_permissions_by_project = λ project w. ([], false);
  set_user_project_permissions = λ email project perm w. (w, true, false);
}

-- Three paths.
abbrev lib : PathLibrary
lib = record {
  root_path = λ path. "/";
  elements = λ path.
      if str_eq path "/p/../q"
      then "/" ∷ "p" ∷ ".." ∷ "q" ∷ []
      else if str_eq path "/p"
      then "/" ∷ "p" ∷ []
      else "/" ∷ "q" ∷ [];
  is_same = str_eq;
  slash = λ path name. path;
}

abbrev bound : Bound Made
bound = record {
  executor = true;
  moved_from = λ message. [];
  validate_expr = λ expr. true;
  lib = lib;
  cis = cis;
  rights = rights;
}

abbrev client : String → ClientInfo
client email = record { email = email; active_token = "token"; api_access_key = "" }

abbrev context : String → Context
context email = record { client_info = some (client email) }

abbrev nobody : Context
nobody = record { client_info = none }

route-not_granted_example :
    IsTurnedDown bound
      (fs_entry_remove "/q")
      (looked bound (fs_entry_remove "/q") [])
      (route bound (fs_entry_remove "/q") (context "ann") [])
route-not_granted_example =
    route-not_granted bound (fs_entry_remove "/q") (context "ann") [] (client "ann") refl refl

route-answers_once_example :
    ((answers_moved bound (cis_job_add "p" "k")
        || (length (route bound (cis_job_add "p" "k") nobody []).sent
              + length (route bound (cis_job_add "p" "k") nobody []).tasks
            == 1))
      ≡ true)
    × (length (route bound (cis_job_add "p" "k") nobody []).tasks ≤ 1)
    × ((route bound (cis_job_add "p" "k") nobody []).threw
        ≡ adds_job (cis_job_add "p" "k") && is_anonymous nobody)
route-answers_once_example = route-answers_once bound (cis_job_add "p" "k") nobody [] refl

abbrev given : List (String × String)
given = ("a", "1") ∷ ("a", "3") ∷ []

abbrev run_of_j : Task
run_of_j = run_job_task "p" "j" true (("a", "1") ∷ ("b", "2") ∷ []) "ann"

starts_j : (route bound (cis_job_run "p" "j" true given) (context "ann") []).tasks ≡ run_of_j ∷ []
unfolding route param_values given_value
starts_j = refl

route-runs_example :
    (info : ClientInfo) × (j : Job) × (values : List (String × String)) × ((context
        "ann").client_info
      ≡ some info)
    × ((cis.get_job_info "p" "j" []).1 ≡ some j)
    × (granted bound info.email [] executing (in_project "p") ≡ true)
    × (run_of_j ≡ run_job_task "p" "j" true values info.email)
    × IsFilled given j.params values
route-runs_example = route-runs bound "p" "j" true given (context "ann") [] run_of_j starts_j
