-- ===== src/Rights/Granting.antt =====
-- The rights that src/rights_manager.cpp gives to a user are those that it finds afterwards.
use cis1_webui_native_srv_cp.Prelude.{
  ℕ, ◌≡◌, refl, ap, true, false, [], ◌∷◌, none, some, Option, String, arith, inl, inr,
}
use cis1_webui_native_srv_cp.Managers.{ProjectRights}
use cis1_webui_native_srv_cp.Database.{User, ProjectUserRight, Tables, meaning, admissible}
use cis1_webui_native_srv_cp.Database.Accounts.{as_list}
use cis1_webui_native_srv_cp.Database.Transaction.{Storage, IsSqlite}
use cis1_webui_native_srv_cp.Database.Transaction.Outcome.{
  Returns, select-Ends, execute-Ends, commit-Ends, transaction-Returns,
}
use cis1_webui_native_srv_cp.Auth.Users.{users_with}
use cis1_webui_native_srv_cp.Rights.Rows.{
  has_row_keys, one_right, matching-insert, matching-replace, has_row_keys-insert,
  has_row_keys-replace,
}
use cis1_webui_native_srv_cp.Rights.{
  projects_with, rights_of, rights, check_project_right, set_user_project_permissions,
}

module _ {S : Storage} (sqlite : IsSqlite S) (email name : String) (u : User) (project : ℕ) where
  -- The tables in which the user and the project are found, and one row is theirs, with the rights; and
  -- the rows of the rights are keyed.
  abbrev Granted : ProjectRights → Tables → Type 0
  Granted p t =
      (users_with email t ≡ u ∷ [])
      × (projects_with name t ≡ project ∷ [])
      × ((row : ProjectUserRight) × (rights_of u.id project t ≡ row ∷ [])
          × (rights row.read row.write row.execute ≡ p))
      × (has_row_keys t.project_user_rights ≡ true)

  abbrev pub Finds : ProjectRights → Tables → Option ProjectRights → Tables → Type 0
  Finds p t a t' = (a ≡ some p) × (t' ≡ t)

  Granted-Finds :
      (d : S.Db) (p : ProjectRights)
      → u.admin ≡ false
      → Granted p (S.tables d)
      → Returns sqlite none (Finds p (S.tables d)) d (check_project_right S email name d)
  unfolding check_project_right
  Granted-Finds d p plain (users, projects, (row, found, same), keys) =
      transaction-Returns sqlite (Finds p (S.tables d)) none _ d (λ g o.
        select-Ends sqlite _ _ g o (λ g1 o1. select-Ends sqlite _ _ g1 o1 (λ g2 o2.
          rw (users, projects, plain)
            (select-Ends sqlite _ _ g2 o2 (λ g3 o3. rw found (
              commit-Ends sqlite (some (rights row.read row.write row.execute)) g3 o3
                (ap some same, refl)))))))

  module _ (d : S.Db) (r : ProjectUserRight) (users : users_with email (S.tables d) ≡ u ∷ [])
      (projects : projects_with name (S.tables d) ≡ project ∷ [])
      (keys : has_row_keys (S.tables d).project_user_rights ≡ true) where
    set-Granted :
        (o : Option ProjectUserRight)
        → rights_of u.id project (S.tables d) ≡ as_list o
        → Returns sqlite false
            (λ a t. Granted (rights r.read r.write r.execute) t)
            d
            (set_user_project_permissions S email name r d)
    unfolding set_user_project_permissions meaning admissible
    set-Granted none before =
        transaction-Returns sqlite (λ a t. Granted (rights r.read r.write r.execute) t) false _ d
          (λ g o. select-Ends sqlite _ _ g o (λ g1 o1. select-Ends sqlite _ _ g1 o1 (λ g2 o2.
            rw (users, projects)
              (select-Ends sqlite _ _ g2 o2 (λ g3 o3. rw before (
                execute-Ends sqlite _ _ g3 o3 (λ id g4 o4 h. commit-Ends sqlite true g4 o4 (
                  users,
                  projects,
                  (
                    _,
                    matching-insert u.id project _ (S.tables d).project_user_rights (ground arith)
                        before,
                    refl,
                  ),
                  has_row_keys-insert _ (S.tables d).project_user_rights keys h before,
                ))))))))
    set-Granted (some old) before =
        transaction-Returns sqlite (λ a t. Granted (rights r.read r.write r.execute) t) false _ d
          (λ g o. select-Ends sqlite _ _ g o (λ g1 o1. select-Ends sqlite _ _ g1 o1 (λ g2 o2.
            rw (users, projects)
              (select-Ends sqlite _ _ g2 o2 (λ g3 o3. rw before (
                execute-Ends sqlite _ _ g3 o3 (λ id g4 o4 h. commit-Ends sqlite true g4 o4 (
                  users,
                  projects,
                  (
                    _,
                    matching-replace u.id project _ old (S.tables d).project_user_rights
                        (ground arith) keys before,
                    refl,
                  ),
                  has_row_keys-replace u.id project _ old (S.tables d).project_user_rights
                      (ground arith) refl keys before,
                ))))))))

    -- Where the email is one user's, no administrator's, the name one project's, and the rows of the
    -- rights are keyed by their ids and by user and project: after a change of rights that was answered
    -- with true, the rights that are found are those that were given, and the tables are kept, or the
    -- error code is set; and the rows are keyed again, so that the next change is one of this kind too.
    pub check_project_right-set :
        u.admin ≡ false
        → (set_user_project_permissions S email name r d).1 ≡ true
        → Returns sqlite none
            (Finds
              (rights r.read r.write r.execute)
              (S.tables (set_user_project_permissions S email name r d).0))
            (set_user_project_permissions S email name r d).0
            (check_project_right S email name (set_user_project_permissions S email name r d).0)
          × (has_row_keys
                (S.tables (set_user_project_permissions S email name r d).0).project_user_rights
              ≡ true)
    check_project_right-set plain e =
        let (o, before) = one_right u.id project (S.tables d).project_user_rights keys in
        elim (set-Granted o before) [
          | inl (ec, refused, same) ↦ absurd (ground (arith, refused, e))
          | inr (ec, granted) ↦
              (Granted-Finds _ (rights r.read r.write r.execute) plain granted, granted.3)
        ]
