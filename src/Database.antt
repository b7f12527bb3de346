-- ===== src/Database.antt =====
-- include/database_structures.h, the schema of include/database.h and the statements of
-- src/auth_manager.cpp, src/rights_manager.cpp and src/cis/cis_manager.cpp. SQLite itself is a parameter, in
-- Database.Transaction; here is what its documentation says that the statements mean.
pub mod Accounts
pub mod Transaction
use cis1_webui_native_srv_cp.Prelude.{
  ℕ, Bool, true, false, ◌&&◌, ◌||◌, not, List, [], ◌∷◌, ◌++◌, String, str_eq, ltb, ◌==◌,
  if◌then◌else◌,
}

pub record User : Type 0 where
  pub id : ℕ
  pub email : String
  pub pass : String
  pub admin : Bool

pub record Project : Type 0 where
  pub id : ℕ
  pub name : String
  pub deleted : Bool

pub record Token : Type 0 where
  pub id : ℕ
  pub user_id : ℕ
  pub value : String
  pub expiration_time : ℕ

pub record ApiAccessKey : Type 0 where
  pub id : ℕ
  pub user_id : ℕ
  pub value : String

pub record ProjectUserRight : Type 0 where
  pub id : ℕ
  pub project_id : ℕ
  pub user_id : ℕ
  pub read : Bool
  pub write : Bool
  pub execute : Bool

pub record Tables : Type 0 where
  pub users : List User
  pub projects : List Project
  pub tokens : List Token
  pub api_access_keys : List ApiAccessKey
  pub project_user_rights : List ProjectUserRight

-- The rows that a `where` keeps.
unfoldable pub matching {ℓ} : {A : Type ℓ} → (A → Bool) → List A → List A
matching p [] = []
matching p (a ∷ rest) = if p a then a ∷ matching p rest else matching p rest

unfoldable pub updating {ℓ} : {A : Type ℓ} → (A → Bool) → (A → A) → List A → List A
updating p f [] = []
updating p f (a ∷ rest) = (if p a then f a else a) ∷ updating p f rest

-- The statements of the managers; a new row's id is chosen by the database.
pub data Statement : Type 0 where
  insert_user : String → String → Bool → Statement
  update_pass : ℕ → String → Statement
  update_user : User → Statement
  remove_user : ℕ → Statement
  insert_token : ℕ → String → ℕ → Statement
  remove_tokens_with : String → Statement
  remove_tokens_before : ℕ → Statement
  insert_key : ℕ → String → Statement
  remove_key : ℕ → Statement
  insert_right : ProjectUserRight → Statement
  replace_right : ProjectUserRight → Statement
  insert_project : String → Statement
  update_project : Project → Statement
  delete_projects : Statement
  delete_projects_with : String → Statement

-- What a statement does to the tables. The foreign keys of `make_database` cascade on delete.
unfoldable pub meaning : ℕ → Statement → Tables → Tables
meaning id (insert_user email pass admin) t = record t {
  users = t.users ++ record { id = id; email = email; pass = pass; admin = admin } ∷ [];
}
meaning id (update_pass user pass) t = record t {
  users = updating (λ u. u.id == user) (λ u. record u { pass = pass }) t.users;
}
meaning id (update_user row) t = record t {
  users = updating (λ u. u.id == row.id) (λ u. row) t.users;
}
meaning id (remove_user user) t = record t {
  users = matching (λ u. not (u.id == user)) t.users;
  tokens = matching (λ k. not (k.user_id == user)) t.tokens;
  api_access_keys = matching (λ k. not (k.user_id == user)) t.api_access_keys;
  project_user_rights = matching (λ r. not (r.user_id == user)) t.project_user_rights;
}
meaning id (insert_token user value time) t = record t {
  tokens =
      t.tokens ++ record { id = id; user_id = user; value = value; expiration_time = time } ∷ [];
}
meaning id (remove_tokens_with value) t = record t {
  tokens = matching (λ k. not (str_eq k.value value)) t.tokens;
}
meaning id (remove_tokens_before time) t = record t {
  tokens = matching (λ k. not (ltb k.expiration_time time)) t.tokens;
}
meaning id (insert_key user value) t = record t {
  api_access_keys = t.api_access_keys ++ record { id = id; user_id = user; value = value } ∷ [];
}
meaning id (remove_key key) t = record t {
  api_access_keys = matching (λ k. not (k.id == key)) t.api_access_keys;
}
meaning id (insert_right row) t = record t {
  project_user_rights = t.project_user_rights ++ record row { id = id } ∷ [];
}
meaning id (replace_right row) t = record t {
  project_user_rights = updating (λ r. r.id == row.id) (λ r. row) t.project_user_rights;
}
meaning id (insert_project name) t = record t {
  projects = t.projects ++ record { id = id; name = name; deleted = false } ∷ [];
}
meaning id (update_project row) t = record t {
  projects = updating (λ p. p.id == row.id) (λ p. row) t.projects;
}
meaning id delete_projects t = record t {
  projects = updating (λ p. true) (λ p. record p { deleted = true }) t.projects;
}
meaning id (delete_projects_with name) t = record t {
  projects = updating (λ p. str_eq p.name name) (λ p. record p { deleted = true }) t.projects;
}

unfoldable pub none_with {ℓ} : {A : Type ℓ} → (A → Bool) → List A → Bool
none_with p [] = true
none_with p (a ∷ rest) = not (p a) && none_with p rest

-- Whether the `unique()` columns of `make_database`, and the key that autoincrement chose for a new
-- row, admit a statement.
unfoldable pub admissible : ℕ → Statement → Tables → Bool
admissible id (insert_user email pass admin) t =
    none_with (λ u. str_eq u.email email || u.id == id) t.users
admissible id (insert_token user value time) t = none_with (λ k. str_eq k.value value) t.tokens
admissible id (insert_key user value) t =
    none_with (λ k. k.user_id == user || str_eq k.value value) t.api_access_keys
admissible id (insert_right row) t = none_with (λ r. r.id == id) t.project_user_rights
admissible id (insert_project name) t = none_with (λ p. str_eq p.name name || p.id == id) t.projects
admissible id (update_project row) t =
    none_with (λ p. str_eq p.name row.name && not (p.id == row.id)) t.projects
admissible id _ t = true
