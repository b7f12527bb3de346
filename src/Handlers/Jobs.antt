-- ===== src/Handlers/Jobs.antt =====
-- The handlers of src/websocket/handlers for jobs, builds and schedules, and that of
-- include/websocket/handlers/add_cis_cron.h. The calls that they start are `Task`s; what is sent when
-- one ends is a function of its result. `executor` is whether the websocket is still there.
pub mod Params
use cis1_webui_native_srv_cp.Prelude.{
  zero, suc, Bool, true, false, ◌&&◌, not, List, [], ◌∷◌, ◌++◌, map, Option, none, some, String,
  str_eq, if◌then◌else◌, ℤ, pos, negsuc,
}
use cis1_webui_native_srv_cp.Dto.{Entry, build_info, FsEntry, make_dir_entry, unpack_build_info}
use cis1_webui_native_srv_cp.Managers.{ProjectRights, Context, RightsManager}
use cis1_webui_native_srv_cp.Managers.Cis.{
  Child, fs_entry, special, Param, Job, Build, CronEntry, ExecutionInfo, Manager, Task,
  run_job as run_job_task, add_cron, remove_cron, list_cron,
}
use cis1_webui_native_srv_cp.Handlers.{
  Message, send, send_error, send_error_text, cis_job_error_invalid_params, cis_job_info_success,
  cis_build_info_success, cis_job_run_success, cis_job_finished, cis_cron_add_success,
  cis_cron_remove_success, cis_cron_list_success,
}
use cis1_webui_native_srv_cp.Handlers.FsEntries.{
  Reply, reply, login_required, check, denied, logged_in, allows, can_read,
}
use cis1_webui_native_srv_cp.Handlers.Projects.{with_right, no_job, no_build}

-- `params[name]` of the map that the request's parameters were inserted in: the first of a name.
unfoldable pub given_value : List (String × String) → String → Option String
given_value [] name = none
given_value ((n, v) ∷ given) name =
    let rest = given_value given name in if str_eq n name then some v else rest

abbrev pub push_value :
    String → String → Option (List (String × String)) → Option (List (String × String))
push_value name v none = none
push_value name v (some vs) = some ((name, v) ∷ vs)

-- The values of the job's parameters; none where one without a default is not given.
unfoldable pub param_values : List (String × String) → List Param → Option (List (String × String))
unfolding given_value
param_values given [] = some []
param_values given (p ∷ ps) =
    let rest = param_values given ps in
    elim (given_value given p.name) [
      | some v ↦ push_value p.name v rest
      | none ↦ if str_eq p.default_value "" then none else push_value p.name p.default_value rest
    ]

abbrev pub build_entry : Child Build → FsEntry
build_entry (fs_entry e) = make_dir_entry e
build_entry (special b) = record (make_dir_entry b.entry) {
  metainfo = build_info (unpack_build_info b.info);
}

abbrev pub is_build : FsEntry → Bool
is_build e = elim e.metainfo [ build_info b ↦ true | _ ↦ false ]

pub reverse {ℓ} : {A : Type ℓ} → List A → List A
reverse [] = []
reverse (x ∷ xs) = reverse xs ++ (x ∷ [])

-- std::stable_sort by "the left one is a build and the right one is none".
pub builds : List FsEntry → List FsEntry
builds [] = []
builds (e ∷ es) = let rest = builds es in if is_build e then e ∷ rest else rest

pub others : List FsEntry → List FsEntry
others [] = []
others (e ∷ es) = let rest = others es in if is_build e then rest else e ∷ rest

abbrev pub stable_sort : List FsEntry → List FsEntry
stable_sort es = builds es ++ others es

abbrev pub property : Option Entry → List FsEntry → List FsEntry
property none es = es
property (some e) es = make_dir_entry e ∷ es

abbrev pub properties : Job → List FsEntry
properties job =
    property job.script_entry (property job.params_entry (make_dir_entry job.conf_entry ∷ []))

-- The source compares the exit code with 0.
abbrev pub exit_status : ℤ → String
exit_status (pos zero) = "success"
exit_status (pos (suc n)) = "failed"
exit_status (negsuc n) = "failed"

abbrev pub can_execute : ProjectRights → Bool
can_execute r = r.execute

abbrev pub can_schedule : ProjectRights → Bool
can_schedule r = r.write && r.execute

-- What is sent when a run has a session, and when it has ended.
abbrev pub job_started : String → List Message
job_started session_id = send (cis_job_run_success session_id) ∷ []

abbrev pub job_ended : ExecutionInfo → List Message
job_ended info =
    if info.success
    then elim info.exit_code [
      | none ↦ []
      | some code ↦
          send (cis_job_finished (exit_status code) code info.exit_message info.session_id) ∷ []
    ]
    else []

-- What is sent when the table of schedules was changed or read.
abbrev pub cron_removed : Bool → List Message
cron_removed true = send cis_cron_remove_success ∷ []
cron_removed false = send_error_text "Can't remove cron." ∷ []

abbrev pub cron_added : Bool → List Message
cron_added true = send cis_cron_add_success ∷ []
cron_added false = send_error_text "Can't add cron." ∷ []

abbrev pub cron_listed : Bool → List CronEntry → List Message
cron_listed true entries = send (cis_cron_list_success entries) ∷ []
cron_listed false entries = send_error_text "Cron list error." ∷ []

-- The messages of an answer, given to a transaction that was moved from.
abbrev pub all_given : (Message → List Message) → List Message → List Message
all_given moved_from [] = []
all_given moved_from (m ∷ ms) = moved_from m ++ all_given moved_from ms

module _ {W : Type 0} where
  abbrev pub through_moved : (Message → List Message) → Reply W → Reply W
  through_moved moved_from r = record r { sent = all_given moved_from r.sent }

  abbrev pub start : Bool → Task → W → Reply W
  start executor task w = record {
    world = w;
    sent = [];
    tasks = if executor then task ∷ [] else [];
    threw = false;
  }

module _ {W : Type 0} (executor : Bool) (cis : Manager W) (rights : RightsManager W) where
  unfoldable pub get_job_info : String → String → Context → W → Reply W
  unfolding builds others reverse
  get_job_info project job ctx w =
      let (w', object) = cis.get_job_info project job w in
      logged_in ctx w' (λ email.
        with_right cis rights can_read email project w' object
          (λ j. reply w' (
            send (
              cis_job_info_success (stable_sort (reverse (map build_entry j.build_list)))
                (map (λ p. (p.name, p.default_value)) j.params) (properties j))))
          (no_job "Job doesn't exist." project job w'))

  unfoldable pub get_build_info : String → String → String → Context → W → Reply W
  get_build_info project job build ctx w =
      let (w', object) = cis.get_build_info project job build w in
      logged_in ctx w' (λ email.
        with_right cis rights can_read email project w' object
          (λ b.
            reply w' (
              send
                (cis_build_info_success (unpack_build_info b.info) (map make_dir_entry b.files))))
          (no_build "Build doesn't exist." project job build w'))

  unfoldable pub run_job : String → String → Bool → List (String × String) → Context → W → Reply W
  unfolding param_values
  run_job project job force given ctx w = logged_in ctx w (λ email.
      let (w', object) = cis.get_job_info project job w in
      with_right cis rights can_execute email project w' object
        (λ j. elim (param_values given j.params) [
          | none ↦ reply w' (send_error cis_job_error_invalid_params "Invalid params.")
          | some values ↦ start executor (run_job_task project job force values email) w'
        ])
        (no_job "Job doesn't exist." project job w'))

  -- croncpp, which parses the expression, is the parameter `validate_expr`. The handle has moved the
  -- transaction into itself. The answers about the login, the error code and the rights are given to
  -- the transaction that was moved from: what comes of them is the parameter `moved_from`.
  unfoldable pub add_cis_cron :
      (Message → List Message) → (String → Bool) → String → String → String → Context → W → Reply W
  add_cis_cron moved_from validate_expr project job expr ctx w =
      if not (validate_expr expr)
      then reply w (send_error_text "Invalid cron expression.")
      else let (w', object) = cis.get_job_info project job w in
        elim ctx.client_info [
          | none ↦ through_moved moved_from (login_required w')
          | some info ↦
              let (perm, ec) = rights.check_project_right info.email project w' in
              let permitted = allows can_schedule perm in
              let found : Reply W = elim object [
                | none ↦ no_job "Job doesn't exists." project job w'
                | some j ↦ start executor (add_cron project job expr) w'
              ] in
              if ec
              then through_moved moved_from (check true w' found)
              else if permitted
              then found
              else through_moved moved_from (denied w')
        ]

  unfoldable pub remove_cis_cron : String → String → String → Context → W → Reply W
  remove_cis_cron project job expr ctx w = logged_in ctx w (λ email.
      let (w', object) = cis.get_job_info project job w in
      with_right cis rights can_schedule email project w' object
        (λ j. start executor (remove_cron project job expr) w')
        (no_job "Job doesn't exist." project job w'))

  -- Neither the client nor its rights are looked at.
  unfoldable pub list_cis_cron : String → Context → W → Reply W
  list_cis_cron mask ctx w = start executor (list_cron mask) w
