-- ===== src/Auth/Users.antt =====
-- src/auth_manager.cpp, the users and their passwords.
pub mod Accounts
pub mod Refinement
use cis1_webui_native_srv_cp.Prelude.{
  ℕ, Bool, true, false, ◌&&◌, List, [], ◌∷◌, map, Option, none, some, String, str_eq, ◌==◌, length,
  if◌then◌else◌,
}
use cis1_webui_native_srv_cp.Managers.{UserInfo}
use cis1_webui_native_srv_cp.Database.{
  User, Tables, matching, Statement, insert_user, update_pass, remove_user,
}
use cis1_webui_native_srv_cp.Database.Transaction.{
  Storage, only, Tx, pure, ◌>>=◌, ◌>>◌, select, execute, commit, transaction,
}

-- The rows that the queries of this file read, by `where`.
abbrev pub users_with : String → Tables → List User
users_with email t = matching (λ u. str_eq u.email email) t.users

abbrev pub users_with_pass : String → String → Tables → List User
users_with_pass email pass t = matching (λ u. str_eq u.email email && str_eq u.pass pass) t.users

module _ (S : Storage) where
  unfoldable pub has_user : String → S.Db → S.Db × Bool × Bool
  has_user email = transaction {S = S} false (do
    users_count ← select (λ t. length (users_with email t))
    if users_count == 0 then pure false else (commit >> pure true))

  -- It has no try: none is the exception that goes on to the caller.
  unfoldable pub check_pass : String → String → S.Db → S.Db × Option Bool × Bool
  check_pass email pass = transaction {S = S} none (do
    users ← select (λ t. map (λ (u : User). u.id) (users_with_pass email pass t))
    pure (some (length users == 1)))

  unfoldable pub change_pass : String → String → S.Db → S.Db × Bool × Bool
  change_pass email new_pass d =
      if str_eq new_pass ""
      then (d, false, false)
      else transaction {S = S} false
          (do
            users ← select (λ t. map (λ (u : User). u.id) (users_with email t))
            elim (only users) [
              | none ↦ pure false
              | some id ↦ do execute (update_pass id new_pass); commit; pure true
            ])
          d

  unfoldable pub add_user : String → String → Bool → S.Db → S.Db × Bool × Bool
  add_user email pass admin = transaction {S = S} false (do
    users_count ← select (λ t. length (users_with email t))
    if users_count == 0
        then (do execute (insert_user email pass admin); commit; pure true)
        else pure false)

  unfoldable pub delete_user : String → S.Db → S.Db × Bool × Bool
  delete_user email = transaction {S = S} false (do
    ids ← select (λ t. map (λ (u : User). u.id) (users_with email t))
    elim (only ids) [
      | none ↦ pure false
      | some id ↦ do execute (remove_user id); commit; pure true
    ])
