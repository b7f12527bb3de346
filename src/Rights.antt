-- ===== src/Rights.antt =====
-- src/rights_manager.cpp, over the database. A method gives the database, its value, and whether it
-- set the error code. A std::map that is returned is a function from its keys.
pub mod Admin
pub mod Calls
pub mod Granting
pub mod Rows
use cis1_webui_native_srv_cp.Prelude.{
  ℕ, Bool, true, false, ◌&&◌, List, [], ◌∷◌, ◌++◌, map, Option, none, some, String, str_eq, ◌==◌,
  if◌then◌else◌,
}
use cis1_webui_native_srv_cp.Managers.{ProjectRights, ProjectRightsEx}
use cis1_webui_native_srv_cp.Database.{
  User, Project, ProjectUserRight, Tables, matching, update_user, insert_right, replace_right,
}
use cis1_webui_native_srv_cp.Database.Transaction.{
  Storage, only, Tx, pure, ◌>>=◌, ◌>>◌, select, execute, commit, transaction,
}
use cis1_webui_native_srv_cp.Auth.Users.{users_with}

abbrev pub projects_with : String → Tables → List ℕ
projects_with name t = map (λ (p : Project). p.id) (matching (λ p. str_eq p.name name) t.projects)

abbrev pub rights_of : ℕ → ℕ → Tables → List ProjectUserRight
rights_of user project t =
    matching (λ r. (r.user_id == user) && (r.project_id == project)) t.project_user_rights

abbrev pub rights : Bool → Bool → Bool → ProjectRights
rights read write execute = record { read = read; write = write; execute = execute }

abbrev pub NameMap : Type 0 → Type 0
NameMap V = String → Option V

-- `result.insert({name, v})`, which keeps an entry that is there, and `result[name] = v`.
abbrev pub insert_new : {V : Type 0} → String → V → NameMap V → NameMap V
insert_new name v m key = elim (m key) [
  | none ↦ if str_eq name key then some v else none
  | some old ↦ some old
]

abbrev pub assign : {V : Type 0} → String → V → NameMap V → NameMap V
assign name v m key = if str_eq name key then some v else m key

pub with_defaults : ProjectRights → List Project → NameMap ProjectRights → NameMap ProjectRights
with_defaults r [] m = m
with_defaults r (p ∷ ps) m = with_defaults r ps (insert_new p.name r m)

-- The rows of the inner join with the projects, and the loop over them.
pub joined : List Project → ProjectUserRight → NameMap ProjectRights → NameMap ProjectRights
joined [] r m = m
joined (p ∷ ps) r m =
    joined ps r
      (if p.id == r.project_id then assign p.name (rights r.read r.write r.execute) m else m)

pub with_rights :
    List Project → List ProjectUserRight → NameMap ProjectRights → NameMap ProjectRights
unfolding joined
with_rights ps [] m = m
with_rights ps (r ∷ rs) m = with_rights ps rs (joined ps r m)

pub with_users : List User → NameMap ProjectRightsEx → NameMap ProjectRightsEx
with_users [] m = m
with_users (u ∷ us) m = with_users us (
    assign u.email
      (if u.admin
        then record { admin = true; read = true; write = true; execute = true }
        else record { admin = false; read = false; write = false; execute = false })
      m)

no_rights : ProjectRightsEx
no_rights = record { admin = false; read = false; write = false; execute = false }

-- `result[email]`, which makes an entry of falses where there is none, and the rest of the loop's
-- body: an administrator keeps every right.
pub with_row : ProjectUserRight → String → NameMap ProjectRightsEx → NameMap ProjectRightsEx
unfolding no_rights
with_row r email m =
    let old : ProjectRightsEx = elim (m email) [ none ↦ no_rights | some e ↦ e ] in
    assign email
      (if old.admin
        then old
        else record old { read = r.read; write = r.write; execute = r.execute })
      m

pub joined_users : List User → ProjectUserRight → NameMap ProjectRightsEx → NameMap ProjectRightsEx
unfolding with_row
joined_users [] r m = m
joined_users (u ∷ us) r m =
    joined_users us r (if u.id == r.user_id then with_row r u.email m else m)

pub with_user_rights :
    List User → List ProjectUserRight → NameMap ProjectRightsEx → NameMap ProjectRightsEx
unfolding joined_users
with_user_rights us [] m = m
with_user_rights us (r ∷ rs) m = with_user_rights us rs (joined_users us r m)

module _ (S : Storage) where
  unfoldable pub is_admin : String → S.Db → S.Db × Bool × Bool
  is_admin email = transaction {S = S} false (do
    admin_fields ← select (λ t. map (λ (u : User). u.admin) (users_with email t))
    elim (only admin_fields) [ none ↦ pure false | some admin ↦ pure admin ])

  unfoldable pub set_admin_status : String → Bool → S.Db → S.Db × Bool × Bool
  set_admin_status email admin = transaction {S = S} false (do
    users ← select (λ t. users_with email t)
    elim (only users) [
      | none ↦ pure false
      | some u ↦ do execute (update_user (record u { admin = admin })); commit; pure true
    ])

  unfoldable pub check_project_right : String → String → S.Db → S.Db × Option ProjectRights × Bool
  check_project_right email projectname = transaction {S = S} none (do
    users ← select (λ t. users_with email t)
    projects ← select (λ t. projects_with projectname t)
    elim (only users) [
      | none ↦ pure none
      | some u ↦ elim (only projects) [
        | none ↦ pure none
        | some project ↦ if u.admin then (commit >> pure (some (rights true true true))) else do
          rows ← select (λ t. rights_of u.id project t)
          elim (only rows) [
            | none ↦ pure none
            | some r ↦ commit >> pure (some (rights r.read r.write r.execute))
          ]
      ]
    ])

  unfoldable pub get_permissions : String → S.Db → S.Db × NameMap ProjectRights × Bool
  get_permissions email =
      transaction {S = S} (λ name. none)
        (do
          users ← select (λ t. users_with email t)
          elim (only users) [
            | none ↦ commit >> pure (λ name. none)
            | some u ↦ do
              projects ← select (λ t. t.projects)
              let result = with_defaults (rights u.admin u.admin u.admin) projects (λ name. none)
              if u.admin then (commit >> pure result) else do
                rows ← select (λ t.
                    with_rights t.projects
                      (matching (λ r. r.user_id == u.id) t.project_user_rights))
                commit
                pure (rows result)
          ])

  unfoldable pub get_permissions_by_project : String → S.Db → S.Db × NameMap ProjectRightsEx × Bool
  get_permissions_by_project project =
      transaction {S = S} (λ email. none)
        (do
          projects ← select (λ t. projects_with project t)
          elim (only projects) [
            | none ↦ commit >> pure (λ email. none)
            | some id ↦ do
              users ← select (λ t. t.users)
              rows ← select (λ t.
                  with_user_rights t.users
                    (matching (λ r. r.project_id == id) t.project_user_rights))
              commit
              pure (rows (with_users users (λ email. none)))
          ])

  unfoldable pub set_user_project_permissions :
      String → String → ProjectUserRight → S.Db → S.Db × Bool × Bool
  set_user_project_permissions email projectname r = transaction {S = S} false (do
    users ← select (λ t. users_with email t)
    projects ← select (λ t. projects_with projectname t)
    elim (only users) [
      | none ↦ pure false
      | some u ↦ elim (only projects) [
        | none ↦ pure false
        | some project ↦ do
          rows ← select (λ t. rights_of u.id project t)
          elim (only rows) [
            | some old ↦
                execute
                  (replace_right (record r { id = old.id; user_id = u.id; project_id = project }))
            | none ↦ execute (insert_right (record r { user_id = u.id; project_id = project }))
          ]
          commit
          pure true
      ]
    ])
