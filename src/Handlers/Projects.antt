-- ===== src/Handlers/Projects.antt =====
-- The handlers of src/websocket/handlers for projects, and for adding and removing jobs and builds.
use cis1_webui_native_srv_cp.Prelude.{
  ℕ, Bool, true, false, not, map, Option, none, some, String, if◌then◌else◌,
}
use cis1_webui_native_srv_cp.Dto.{FsEntry, project_info, job_info, make_dir_entry}
use cis1_webui_native_srv_cp.Managers.{ProjectRights, Context, RightsManager}
use cis1_webui_native_srv_cp.Managers.Cis.{
  Child, fs_entry, special, Project, Job, Manager, PathLibrary,
}
use cis1_webui_native_srv_cp.Handlers.{
  send, send_error, cis_project_error_already_exist, cis_project_error_doesnt_exist,
  cis_job_error_already_exist, cis_job_error_doesnt_exist, cis_build_error_doesnt_exist,
  cis_project_list_get_success, cis_project_info_success, cis_project_add_success,
  cis_project_remove_success, cis_job_add_success, cis_job_remove_success, cis_build_remove_success,
}
use cis1_webui_native_srv_cp.Handlers.FsEntries.{
  Reply, reply, login_required, check, check_msg, denied, logged_in, allows, can_read, can_write,
}

module _ {W : Type 0} where
  abbrev pub no_project : String → String → W → Reply W
  no_project text project w = reply w (send_error (cis_project_error_doesnt_exist project) text)

  abbrev pub no_job : String → String → String → W → Reply W
  no_job text project job w = reply w (send_error (cis_job_error_doesnt_exist project job) text)

  abbrev pub no_build : String → String → String → String → W → Reply W
  no_build text project job build w =
      reply w (send_error (cis_build_error_doesnt_exist project job build) text)

module _ {W : Type 0} (cis : Manager W) (rights : RightsManager W) where
  -- A project's entry tells whether the client may read it; an error code is ignored.
  abbrev pub project_entry : Context → W → Child Project → FsEntry
  project_entry ctx w (fs_entry e) = make_dir_entry e
  project_entry ctx w (special project) =
      let entry = make_dir_entry project.entry in
      record entry {
        metainfo = project_info (elim ctx.client_info [
          | none ↦ false
          | some info ↦
              let (perm, ec) = rights.check_project_right info.email entry.name w in
              allows can_read perm
        ]);
      }

  unfoldable pub list_projects : Context → W → Reply W
  list_projects ctx w =
      let (w', entries) = cis.get_project_list w in
      reply w' (send (cis_project_list_get_success (map (project_entry ctx w') entries)))

  abbrev pub job_entry : Child Job → FsEntry
  job_entry (fs_entry e) = make_dir_entry e
  job_entry (special job) = record (make_dir_entry job.entry) { metainfo = job_info }

  -- How the handlers of a project's parts go on from the object's lookup: the client's right to the
  -- project, then whether the object was found.
  abbrev pub with_right :
      {A : Type 0}
      → (ProjectRights → Bool)
      → String
      → String
      → W
      → Option A
      → (A → Reply W)
      → Reply W
      → Reply W
  with_right right email project w object found missing =
      let (perm, ec) = rights.check_project_right email project w in
      check ec w
        (if allows right perm then elim object [ none ↦ missing | some a ↦ found a ] else denied w)

  unfoldable pub get_project_info : String → Context → W → Reply W
  get_project_info project ctx w =
      let (w', object) = cis.get_project_info project w in
      logged_in ctx w' (λ email.
        with_right can_read email project w' object
          (λ p. reply w' (send (cis_project_info_success (map job_entry p.job_list))))
          (no_project "Project doesn't exist." project w'))

  unfoldable pub add_cis_project : String → Context → W → Reply W
  add_cis_project project ctx w = logged_in ctx w (λ email.
      let (w', object) = cis.get_project_info project w in
      elim object [
        | some p ↦
            reply w'
              (send_error (cis_project_error_already_exist project) "Project already exists.")
        | none ↦
            let (is_admin, ec) = rights.is_admin email w' in
            check ec w' (
              if not is_admin
              then denied w'
              else let (w'', ec') = cis.create_project project w' in
                check ec' w'' (reply w'' (send cis_project_add_success)))
      ])

  unfoldable pub remove_cis_project : String → Context → W → Reply W
  remove_cis_project project ctx w = logged_in ctx w (λ email.
      let (w', object) = cis.get_project_info project w in
      with_right can_write email project w' object
        (λ p.
          let (w'', ec) = cis.remove_project p w' in
          check ec w'' (reply w'' (send cis_project_remove_success)))
        (no_project "Project doesn't exists." project w'))

module _ {W : Type 0} (lib : PathLibrary) (cis : Manager W) (rights : RightsManager W) where
  -- `std::filesystem::path{"/"} / project / job`.
  abbrev pub job_path : String → String → String
  job_path project job = lib.slash (lib.slash "/" project) job

  -- What is written to job.conf.
  abbrev pub default_conf : String
  default_conf = "script=script\nkeep_last_success_builds=5\nkeep_last_break_builds=5"

  -- owner_all, group_read and others_read.
  abbrev script_perms : ℕ
  script_perms = 484

  abbrev pub create_job : String → W → Reply W
  create_job path w =
      let (w1, ec1) = cis.create_directory path w in
      check_msg "Can't create directory." ec1 w1 (
        let (w2, ec2) = cis.create_file_w (lib.slash path "script") w1 in
        check_msg "Can't create file." ec2 w2 (
          let (w3, ec3) = cis.set_permissions (lib.slash path "script") script_perms w2 in
          check_msg "Can't make script executable." ec3 w3 (
            let (w4, ec4) = cis.create_file_w (lib.slash path "job.params") w3 in
            check_msg "Can't create file." ec4 w4 (
              let (w5, ec5) = cis.create_file_w (lib.slash path "job.conf") w4 in
              check_msg "Can't create file." ec5 w5 (
                reply (cis.write (lib.slash path "job.conf") default_conf w5)
                  (send cis_job_add_success))))))

  -- Without a client the error is sent, and then `value()` of an empty optional throws.
  unfoldable pub add_cis_job : String → String → Context → W → Reply W
  add_cis_job project job ctx w =
      let (w', object) = cis.get_project_info project w in
      elim ctx.client_info [
        | none ↦ record (login_required w') { threw = true }
        | some info ↦
            with_right cis rights can_write info.email project w' object
              (λ p.
                let (w'', found) = cis.find (job_path project job) w' in
                elim found [
                  | some it ↦
                      reply w''
                        (send_error (cis_job_error_already_exist project job) "Job already exists.")
                  | none ↦ create_job (job_path project job) w''
                ])
              (no_project "Project doesn't exists." project w')
      ]

  unfoldable pub remove_cis_job : String → String → Context → W → Reply W
  remove_cis_job project job ctx w = logged_in ctx w (λ email.
      let (w', object) = cis.get_job_info project job w in
      with_right cis rights can_write email project w' object
        (λ j.
          let (w'', found) = cis.find (job_path project job) w' in
          elim found [
            | none ↦ no_job "Job doesn't exist." project job w''
            | some it ↦ reply (cis.remove_found it w'') (send cis_job_remove_success)
          ])
        (no_job "Job doesn't exists." project job w'))

  -- Where the build is in the job's list but not in the cache, the error names only the project.
  unfoldable pub remove_cis_build : String → String → String → Context → W → Reply W
  remove_cis_build project job build ctx w = logged_in ctx w (λ email.
      let (w', object) = cis.get_build_info project job build w in
      with_right cis rights can_write email project w' object
        (λ b.
          let (w'', found) = cis.find (lib.slash (job_path project job) build) w' in
          elim found [
            | none ↦ no_build "Build doesn't exist." project "" "" w''
            | some it ↦ reply (cis.remove_found it w'') (send cis_build_remove_success)
          ])
        (no_build "Build doesn't exists." project job build w'))
