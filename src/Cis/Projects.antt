-- ===== src/Cis/Projects.antt =====
-- src/cis/cis_manager.cpp: the table of projects that the manager keeps in the database, beside the
-- directories that src/fs_cache.cpp knows.
pub mod Rows
pub mod Listing
use cis1_webui_native_srv_cp.Prelude.{
  Bool, true, false, List, [], ◌∷◌, String, str_eq, if◌then◌else◌,
}
use cis1_webui_native_srv_cp.Database.{
  Project, Tables, matching, Statement, insert_project, update_project, delete_projects,
  delete_projects_with,
}
use cis1_webui_native_srv_cp.Database.Transaction.{
  Storage, Tx, pure, ◌>>=◌, ◌>>◌, select, execute, commit, transaction,
}
use cis1_webui_native_srv_cp.Cis.Structs.{Entries, Item, fs_entry_ref, recognised, project_is_entry}

abbrev pub rows_with : String → Tables → List Project
rows_with name t = matching (λ p. str_eq p.name name) t.projects

module _ {S : Storage} where
  -- What `refresh_projects` and `create_project` do for one name.
  unfoldable pub enlist : String → Tx S (Unit {0})
  enlist name = do
    projects ← select (rows_with name)
    elim projects [
      | [] ↦ do execute (insert_project name); pure tt
      | p ∷ more ↦ elim more [
        | [] ↦ do execute (update_project (record p { deleted = false })); pure tt
        | q ∷ rest ↦ pure tt
      ]
    ]

  unfoldable pub enlist_all : List String → Tx S (Unit {0})
  unfolding enlist
  enlist_all [] = pure tt
  enlist_all (name ∷ names) = do enlist name; enlist_all names

-- The names of the entries that are projects, by `filename().generic_string()`.
unfoldable pub names_of : {I : Type 0} → Entries I → (I → String) → List I → List String
names_of fs name [] = []
names_of fs name (entry ∷ entries) =
    let rest = names_of fs name entries in
    if project_is_entry fs entry then name entry ∷ rest else rest

-- The list of the root's entries, with those that are projects recognised.
unfoldable pub get_project_list : {I : Type 0} → Entries I → List I → List (Item I I)
get_project_list fs [] = []
get_project_list fs (entry ∷ entries) =
    (if project_is_entry fs entry then recognised entry else fs_entry_ref entry)
    ∷ get_project_list fs entries

module _ (S : Storage) where
  -- It has no try: the last component is whether an exception goes on to the caller.
  unfoldable pub refresh_projects :
      {I : Type 0} → Entries I → (I → String) → List I → S.Db → S.Db × Unit {0} × Bool
  unfolding enlist_all names_of
  refresh_projects fs name entries =
      transaction {S = S} tt
        (do execute delete_projects; enlist_all (names_of fs name entries); commit; pure tt)

  -- `ec` is whether the creation of the directory in the file system cache set the error code.
  unfoldable pub create_project : Bool → String → S.Db → S.Db × Unit {0} × Bool
  unfolding enlist
  create_project ec project_name d =
      if ec
      then (d, tt, true)
      else transaction {S = S} tt (do enlist project_name; commit; pure tt) d

  -- Behind the removal of the directory.
  unfoldable pub remove_project : String → S.Db → S.Db × Unit {0} × Bool
  remove_project project_name =
      transaction {S = S} tt (do execute (delete_projects_with project_name); commit; pure tt)
