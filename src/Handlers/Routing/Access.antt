-- ===== src/Handlers/Routing/Access.antt =====
-- Who may have which request about projects carried out: src/path_utils.cpp and the handlers of
-- src/websocket/handlers for projects, jobs, builds, entries and schedules.
use cis1_webui_native_srv_cp.Prelude.{
  ◌≡◌, Bool, true, false, ◌&&◌, ◌||◌, not, List, [], ◌∷◌, Option, none, some, String, arith, refl,
  Bool-cases, inl, inr, if◌then◌else◌,
}
use cis1_webui_native_srv_cp.Managers.{ProjectRights, ClientInfo, Context}
use cis1_webui_native_srv_cp.Handlers.{
  Message, send_error, send_error_text, user_permission_error_access_denied,
}
use cis1_webui_native_srv_cp.Handlers.Jobs.{all_given}
use cis1_webui_native_srv_cp.Handlers.FsEntries.{Reply, allows}
use cis1_webui_native_srv_cp.Handlers.Dispatch.Access.{is_single_error}
use cis1_webui_native_srv_cp.Handlers.Routing.{
  ProjectRequest, cis_project_list_get, cis_project_info, cis_project_add, cis_project_remove,
  cis_job_add, cis_job_remove, cis_job_info, cis_build_remove, cis_build_info, cis_job_run,
  fs_entry_info, fs_entry_refresh, fs_entry_remove, fs_entry_new_dir, fs_entry_list, fs_entry_move,
  fs_entry_set_executable_flag, cis_cron_add, cis_cron_remove, cis_cron_list, Bound, route,
}

-- The rights that a request needs: a list of places with what is to be done there.
pub data Use : Type 0 where
  reading writing executing scheduling : Use

pub data Place : Type 0 where
  in_project : String → Place
  at_path : String → Place
  everywhere : Place

abbrev pub needs : ProjectRequest → List (Use × Place)
needs cis_project_list_get = []
needs (cis_project_info project) = (reading, in_project project) ∷ []
needs (cis_project_add project) = (writing, everywhere) ∷ []
needs (cis_project_remove project) = (writing, in_project project) ∷ []
needs (cis_job_add project job) = (writing, in_project project) ∷ []
needs (cis_job_remove project job) = (writing, in_project project) ∷ []
needs (cis_job_info project job) = (reading, in_project project) ∷ []
needs (cis_build_remove project job build) = (writing, in_project project) ∷ []
needs (cis_build_info project job build) = (reading, in_project project) ∷ []
needs (cis_job_run project job force params) = (executing, in_project project) ∷ []
needs (fs_entry_info path) = (reading, at_path path) ∷ []
needs (fs_entry_refresh path) = (reading, at_path path) ∷ []
needs (fs_entry_remove path) = (writing, at_path path) ∷ []
needs (fs_entry_new_dir path) = (writing, at_path path) ∷ []
needs (fs_entry_list path) = (reading, at_path path) ∷ []
needs (fs_entry_move old new) = (writing, at_path old) ∷ (writing, at_path new) ∷ []
needs (fs_entry_set_executable_flag path flag) = (writing, at_path path) ∷ []
needs (cis_cron_add project job expr) = (scheduling, in_project project) ∷ []
needs (cis_cron_remove project job expr) = (scheduling, in_project project) ∷ []
needs (cis_cron_list mask) = []

abbrev pub covers : Use → ProjectRights → Bool
covers reading r = r.read
covers writing r = r.write
covers executing r = r.execute
covers scheduling r = r.write && r.execute

abbrev pub second : List String → Option String
second (root ∷ project ∷ rest) = some project
second _ = none

-- The state after the lookup that comes in front of the check of the rights.
module _ {W : Type 0} (b : Bound W) where
  abbrev pub looked : ProjectRequest → W → W
  looked (cis_project_info project) w = (b.cis.get_project_info project w).0
  looked (cis_project_add project) w = (b.cis.get_project_info project w).0
  looked (cis_project_remove project) w = (b.cis.get_project_info project w).0
  looked (cis_job_add project job) w = (b.cis.get_project_info project w).0
  looked (cis_job_remove project job) w = (b.cis.get_job_info project job w).0
  looked (cis_job_info project job) w = (b.cis.get_job_info project job w).0
  looked (cis_build_remove project job build) w = (b.cis.get_build_info project job build w).0
  looked (cis_build_info project job build) w = (b.cis.get_build_info project job build w).0
  looked (cis_job_run project job force params) w = (b.cis.get_job_info project job w).0
  looked (cis_cron_remove project job expr) w = (b.cis.get_job_info project job w).0
  looked (cis_cron_add project job expr) w = elim (b.validate_expr expr) [
    | true ↦ (b.cis.get_job_info project job w).0
    | false ↦ w
  ]
  looked _ w = w

-- Whether the rights manager grants a use to an email: an error code grants nothing, and of a path
-- the first directory counts.
module _ {W : Type 0} (b : Bound W) (email : String) (w : W) where
  abbrev pub in_project_granted : Use → String → Bool
  in_project_granted u project =
      let (perm, ec) = b.rights.check_project_right email project w in
      not ec && allows (covers u) perm

  abbrev pub granted : Use → Place → Bool
  granted u (in_project project) = in_project_granted u project
  granted u everywhere = let (admin, ec) = b.rights.is_admin email w in not ec && admin
  granted u (at_path path) = elim (second (b.lib.elements path)) [
    | none ↦ false
    | some project ↦
        let (admin, ec) = b.rights.is_admin email w in
        not ec && (admin || in_project_granted u project)
  ]

  abbrev pub all_granted : List (Use × Place) → Bool
  all_granted [] = true
  all_granted ((u, p) ∷ ps) = granted u p && all_granted ps

-- A schedule with a valid expression is answered, where it is turned down, through a transaction that
-- was moved from.
abbrev pub answers_moved : {W : Type 0} → Bound W → ProjectRequest → Bool
answers_moved b (cis_cron_add project job expr) = b.validate_expr expr
answers_moved b _ = false

-- The request left the state as the lookup did, started nothing and sent one answer, an error, but for
-- one that is `lost` in a transaction that was moved from.
abbrev pub IsStopped : {W : Type 0} → Bool → W → Reply W → Type 0
IsStopped lost w r =
    (r.world ≡ w) × ((lost || is_single_error r.sent) ≡ true) × (r.tasks ≡ []) × (r.threw ≡ false)

-- What comes of a message that a request is answered with.
abbrev pub delivered : {W : Type 0} → Bound W → ProjectRequest → Message → List Message
delivered b r m = if answers_moved b r then all_given b.moved_from (m ∷ []) else m ∷ []

-- The request left the state as the lookup did, started nothing and gave one answer, an error.
abbrev pub IsTurnedDown : {W : Type 0} → Bound W → ProjectRequest → W → Reply W → Type 0
IsTurnedDown b r w reply =
    (reply.world ≡ w)
    × ((m : Message) × (is_single_error (m ∷ []) ≡ true) × (reply.sent ≡ delivered b r m))
    × (reply.tasks ≡ [])
    × (reply.threw ≡ false)

single :
    (ms : List Message)
    → is_single_error ms ≡ true
    → (m : Message) × (is_single_error (m ∷ []) ≡ true) × (ms ≡ m ∷ [])
single [] h = cc
single (m ∷ []) h = (m, h, refl)
single (m ∷ n ∷ ms) h = cc

-- The requests that ask for a client that is logged in, but for the adding of a job.
abbrev pub asks_login : ProjectRequest → Bool
asks_login cis_project_list_get = false
asks_login (cis_cron_list mask) = false
asks_login (cis_job_add project job) = false
asks_login _ = true

abbrev pub adds_job : ProjectRequest → Bool
adds_job (cis_job_add project job) = true
adds_job _ = false

abbrev pub is_anonymous : Context → Bool
is_anonymous ctx = elim ctx.client_info [ none ↦ true | some info ↦ false ]

module _ {W : Type 0} (b : Bound W) where
  -- The state after the lookup that comes in front of the check of the login.
  abbrev pub looked_first : ProjectRequest → W → W
  looked_first (cis_project_info project) w = (b.cis.get_project_info project w).0
  looked_first (cis_job_info project job) w = (b.cis.get_job_info project job w).0
  looked_first (cis_build_info project job build) w = (b.cis.get_build_info project job build w).0
  looked_first (cis_cron_add project job expr) w = looked b (cis_cron_add project job expr) w
  looked_first _ w = w

  not_granted-IsStopped :
      (r : ProjectRequest) (ctx : Context) (w : W) (info : ClientInfo)
      → ctx.client_info ≡ some info
      → all_granted b info.email (looked b r w) (needs r) ≡ false
      → IsStopped (answers_moved b r) (looked b r w) (route b r ctx w)
  unfolding route
  not_granted-IsStopped cis_project_list_get ctx w info h g = cc
  not_granted-IsStopped (cis_cron_list mask) ctx w info h g = cc
  not_granted-IsStopped r ctx w info h g = ground arith

  add_cron-answer :
      (project job expr : String) (ctx : Context) (w : W) (info : ClientInfo)
      → ctx.client_info ≡ some info
      → all_granted b info.email
          (looked b (cis_cron_add project job expr) w)
          (needs (cis_cron_add project job expr))
        ≡ false
      → (m : Message) × (is_single_error (m ∷ []) ≡ true)
        × ((route b (cis_cron_add project job expr) ctx w).sent
            ≡ delivered b (cis_cron_add project job expr) m)
  unfolding route
  add_cron-answer project job expr ctx w info h g = elim (Bool-cases (b.validate_expr expr)) [
    | inr e ↦ (send_error_text "Invalid cron expression.", refl, rw (route, e) refl)
    | inl e ↦
        let seen = (b.cis.get_job_info project job w).0 in
        elim (Bool-cases (b.rights.check_project_right info.email project seen).1) [
          | inl f ↦ (send_error_text "Internal error.", refl, rw (route, e, h, f) refl)
          | inr f ↦ (
            send_error user_permission_error_access_denied "Action not permitted.",
            refl,
            ground (arith, e, h, f, g),
          )
        ]
  ]

  -- A request of a logged-in client who is not granted all that it needs, after the lookup that comes
  -- first, is turned down: the state is that of the lookup, nothing is started, and the one answer is
  -- an error, which for a schedule with a valid expression is given to a transaction that was moved from.
  pub route-not_granted :
      (r : ProjectRequest) (ctx : Context) (w : W) (info : ClientInfo)
      → ctx.client_info ≡ some info
      → all_granted b info.email (looked b r w) (needs r) ≡ false
      → IsTurnedDown b r (looked b r w) (route b r ctx w)
  route-not_granted (cis_cron_add project job expr) ctx w info h g =
      let (same, lost, nothing, fine) =
        not_granted-IsStopped (cis_cron_add project job expr) ctx w info h g in
      (same, add_cron-answer project job expr ctx w info h g, nothing, fine)
  route-not_granted r ctx w info h g =
      let (same, one, nothing, fine) = not_granted-IsStopped r ctx w info h g in
      (same, single (route b r ctx w).sent one, nothing, fine)

  -- Without a client that is logged in, every request but the list of projects, the list of schedules
  -- and the adding of a job is turned down.
  pub route-anonymous :
      (r : ProjectRequest) (ctx : Context) (w : W)
      → ctx.client_info ≡ none
      → asks_login r ≡ true
      → IsStopped (answers_moved b r) (looked_first r w) (route b r ctx w)
  unfolding route
  route-anonymous r ctx w h a = ground arith
