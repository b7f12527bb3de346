-- ===== src/Tests/Database.antt =====
-- A database in memory, and the theorems on src/auth_manager.cpp and src/rights_manager.cpp on it.
use cis1_webui_native_srv_cp.Prelude.{
  ℕ, String, Bool, ◌+◌, ◌≡◌, ◌==◌, refl, true, false, [], ◌∷◌, Option, none, some, if◌then◌else◌,
  arith,
}
use cis1_webui_native_srv_cp.Database.{
  User, ProjectUserRight, Tables, Statement, matching, updating, none_with, meaning, admissible,
}
use cis1_webui_native_srv_cp.Database.Accounts.{is_keyed, account}
use cis1_webui_native_srv_cp.Database.Transaction.{
  Storage, IsSqlite, select, execute, attempt, commit, leave, release, transaction,
}
use cis1_webui_native_srv_cp.Database.Transaction.Outcome.{Returns}
use cis1_webui_native_srv_cp.Auth.Users.{change_pass}
use cis1_webui_native_srv_cp.Auth.Users.Accounts.{Follows, set_pass}
use cis1_webui_native_srv_cp.Auth.Tokens.{authenticate, authenticate_token}
use cis1_webui_native_srv_cp.Auth.Tokens.Login.{LoggedIn, authenticate-LoggedIn}
use cis1_webui_native_srv_cp.Auth.Tokens.Answering.{IsReliable, authenticate-answers}
use cis1_webui_native_srv_cp.Auth.Tokens.Lifetime.{
  LetsIn, IsExpired, authenticate_token-LetsIn, authenticate_token-IsExpired,
}
use cis1_webui_native_srv_cp.Rights.{rights, check_project_right, set_user_project_permissions}
use cis1_webui_native_srv_cp.Rights.Rows.{has_row_keys}
use cis1_webui_native_srv_cp.Rights.Granting.{Finds, check_project_right-set}
use cis1_webui_native_srv_cp.Rights.Calls.{to_change_pass, call-Follows}
use cis1_webui_native_srv_cp.Cis.Projects.{refresh_projects, enlist_all, names_of, enlist}
use cis1_webui_native_srv_cp.Cis.Projects.Rows.{has_keys}
use cis1_webui_native_srv_cp.Cis.Projects.Listing.{refreshing, call, After, call-Becomes}
use cis1_webui_native_srv_cp.Tests.Entries.{entries}

record Memory : Type 0 where
  current : Tables
  base : Tables
  next : ℕ

-- A statement that breaks no key is carried out; no operation fails else.
execute_in_memory : Statement → Memory → Memory × Option ℕ
execute_in_memory s d =
    if admissible d.next s d.current
    then (record d { current = meaning d.next s d.current; next = d.next + 1 }, some d.next)
    else (d, none)

abbrev memory : Storage
memory = record {
  Db = Memory;
  tables = λ (d : Memory). d.current;
  saved = λ (d : Memory). d.base;
  begin_transaction = λ (d : Memory). (record d { base = d.current }, true);
  query = λ (d : Memory). (d, true);
  execute = execute_in_memory;
  commit = λ (d : Memory). (d, true);
  rollback = λ (d : Memory). record d { current = d.base };
}

memory-IsSqlite : IsSqlite memory
unfolding execute_in_memory
memory-IsSqlite = record {
  begin_tables = λ d. refl;
  begin_saved = λ d e. refl;
  query_tables = λ d. refl;
  query_saved = λ d. refl;
  execute_tables = λ s d id e. ground (arith, e);
  execute_unique = λ s d id e. ground (arith, e);
  execute_failed = λ s d e. ground (arith, e);
  execute_saved = λ s d. ground arith;
  commit_tables = λ d e. refl;
  commit_saved = λ d e. ground (arith, e);
  rollback_tables = λ d. refl;
}

abbrev start : Memory
start = record {
  current = record {
    users =
        record { id = 1; email = "root"; pass = "r"; admin = true }
        ∷ record { id = 2; email = "ann"; pass = "a"; admin = false }
        ∷ [];
    projects = record { id = 5; name = "site"; deleted = false } ∷ [];
    tokens = record { id = 3; user_id = 1; value = "t1"; expiration_time = 50 } ∷ [];
    api_access_keys = [];
    project_user_rights = [];
  };
  base = record {
    users = [];
    projects = [];
    tokens = [];
    api_access_keys = [];
    project_user_rights = [];
  };
  next = 6;
}

start-IsKeyed : is_keyed start.current.users ≡ true
unfolding is_keyed none_with
start-IsKeyed = refl

call-Follows_example :
    Returns memory-IsSqlite false
      (Follows (set_pass "ann" "new") start.current)
      start
      (change_pass memory "ann" "new" start)
call-Follows_example = call-Follows memory-IsSqlite (to_change_pass "ann" "new") start start-IsKeyed

-- The directory of the projects has a directory and a file.
abbrev entry_name : ℕ → String
entry_name i = if i == 0 then "lib" else "x"

start-has_keys : has_keys start.current.projects ≡ true
unfolding has_keys none_with
start-has_keys = refl

lib_listed :
    (refresh_projects memory entries entry_name (0 ∷ 4 ∷ []) start).0.current.projects
    ≡ record { id = 5; name = "site"; deleted = true }
      ∷ record { id = 7; name = "lib"; deleted = false }
      ∷ []
unfolding refresh_projects enlist_all names_of enlist transaction select matching execute commit
    execute_in_memory admissible none_with leave meaning updating release
lib_listed = refl

call-Becomes_example :
    Returns memory-IsSqlite tt
      (After entries entry_name (refreshing (0 ∷ 4 ∷ [])) start.current)
      start
      (call entries entry_name memory (refreshing (0 ∷ 4 ∷ [])) start)
call-Becomes_example =
    call-Becomes entries entry_name memory-IsSqlite (refreshing (0 ∷ 4 ∷ [])) start start-has_keys

authenticate-LoggedIn_example :
    Returns memory-IsSqlite
      (some none)
      (LoggedIn 100 "ann" "a" start.current)
      start
      (authenticate memory ("t1" ∷ "t2" ∷ []) 100 "ann" "a" start)
authenticate-LoggedIn_example =
    authenticate-LoggedIn memory-IsSqlite start start-IsKeyed ("t1" ∷ "t2" ∷ []) 100 "ann" "a"

-- The first draw is taken, the second becomes the token.
ann_logs_in : (authenticate memory ("t1" ∷ "t2" ∷ []) 100 "ann" "a" start).1 ≡ some (some "t2")
unfolding authenticate transaction select matching execute attempt commit execute_in_memory
    admissible none_with leave
ann_logs_in = refl

authenticate_token-LetsIn_example :
    Returns memory-IsSqlite none
      (LetsIn "ann" (authenticate memory ("t1" ∷ "t2" ∷ []) 100 "ann" "a" start).0.current)
      (authenticate memory ("t1" ∷ "t2" ∷ []) 100 "ann" "a" start).0
      (authenticate_token memory 604900 "t2"
        (authenticate memory ("t1" ∷ "t2" ∷ []) 100 "ann" "a" start).0)
authenticate_token-LetsIn_example =
    authenticate_token-LetsIn memory-IsSqlite start start-IsKeyed ("t1" ∷ "t2" ∷ []) 100 "ann" "a"
      "t2" 604900 (omega arith) ann_logs_in (omega arith)

authenticate_token-IsExpired_example :
    Returns memory-IsSqlite none
      (IsExpired "t2")
      (authenticate memory ("t1" ∷ "t2" ∷ []) 100 "ann" "a" start).0
      (authenticate_token memory 604901 "t2"
        (authenticate memory ("t1" ∷ "t2" ∷ []) 100 "ann" "a" start).0)
authenticate_token-IsExpired_example =
    authenticate_token-IsExpired memory-IsSqlite start start-IsKeyed ("t1" ∷ "t2" ∷ []) 100 "ann"
      "a" "t2" 604901 (omega arith) ann_logs_in (omega arith)

abbrev ann : User
ann = record { id = 2; email = "ann"; pass = "a"; admin = false }

abbrev may_write : ProjectUserRight
may_write = record {
  id = 0;
  project_id = 0;
  user_id = 0;
  read = true;
  write = true;
  execute = false;
}

abbrev granted : Memory × Bool × Bool
granted = set_user_project_permissions memory "ann" "site" may_write start

granted_true : granted.1 ≡ true
unfolding set_user_project_permissions transaction select matching execute commit execute_in_memory
    admissible none_with leave
granted_true = refl

check_project_right-set_example :
    Returns memory-IsSqlite none
      (Finds memory-IsSqlite "ann" "site" ann 5 (rights true true false) granted.0.current)
      granted.0
      (check_project_right memory "ann" "site" granted.0)
    × (has_row_keys granted.0.current.project_user_rights ≡ true)
unfolding matching has_row_keys
check_project_right-set_example =
    check_project_right-set memory-IsSqlite "ann" "site" ann 5 start may_write refl refl refl refl
      granted_true

memory-IsReliable : IsReliable memory
unfolding execute_in_memory
memory-IsReliable = record {
  begins = λ d. refl;
  queries = λ d. refl;
  commits = λ d. refl;
  executes = λ s d h. (d.next, ground (arith, h d.next));
}

authenticate-answers_example :
    (token : String) × ((authenticate memory ("t1" ∷ "t2" ∷ []) 100 "ann" "a" start).1
      ≡ some (some token))
unfolding account none_with
authenticate-answers_example =
    authenticate-answers memory-IsSqlite memory-IsReliable start ("t1" ∷ "t2" ∷ []) 100 "ann" "a"
      ann start-IsKeyed refl refl
