-- ===== src/Tests/Handlers.antt =====
-- Runs of src/websocket/handlers over managers that keep a list of users in memory, turn every
-- change of a password down, and know one administrator.
use cis1_webui_native_srv_cp.Prelude.{
  length, ◌≡◌, refl, Bool, true, false, List, [], ◌∷◌, none, some, String, str_eq,
}
use cis1_webui_native_srv_cp.Managers.{ClientInfo, Context, AuthManager, RightsManager, CisManager}
use cis1_webui_native_srv_cp.Handlers.Dispatch.{
  auth_login_pass, user_change_pass, admin_user_add, user_api_key_get, dispatch,
}
use cis1_webui_native_srv_cp.Handlers.Dispatch.Access.{
  IsRefused, dispatch-anonymous, dispatch-not_admin,
}
use cis1_webui_native_srv_cp.Handlers.Dispatch.Answers.{
  dispatch-answers_count, ClientMove, dispatch-ClientMove,
}

abbrev Users : Type 0
Users = List (String × String × Bool)

abbrev auth : AuthManager Users
auth = record {
  authenticate = λ email pass w. (w, some "token", false);
  authenticate_token = λ token w. (w, none, false);
  has_user = λ email w. (false, false);
  generate_api_key = λ email w. (w, none, false);
  get_api_key = λ email w. (none, false);
  remove_api_key = λ email w. (w, false, false);
  check_pass = λ email pass w. str_eq pass "old";
  change_pass = λ email pass w. (w, false, false);
  get_user_infos = λ w. ([], false);
  delete_token = λ token w. (w, true, false);
  add_user = λ email pass admin w. ((email, pass, admin) ∷ w, true, false);
  delete_user = λ email w. ([], true, false);
}

abbrev rights : RightsManager Users
rights = record {
  is_admin = λ email w. (str_eq email "root", false);
  set_admin_status = λ email admin w. (w, true, false);
  check_project_right = λ email project w. (none, false);
  get_permissions = λ email w. ([], false);
  get_permissions_by_project = λ project w. ([], false);
  set_user_project_permissions = λ email project perm w. (w, true, false);
}

abbrev cis : CisManager Users
cis = record { has_project_info = λ project w. false }

abbrev client : String → ClientInfo
client email = record { email = email; active_token = "token"; api_access_key = "" }

abbrev context : String → Context
context email = record { client_info = some (client email) }

abbrev nobody : Context
nobody = record { client_info = none }

dispatch-anonymous_example :
    IsRefused auth rights cis nobody []
      (dispatch auth rights cis (admin_user_add "a" "b" true) nobody [])
dispatch-anonymous_example =
    dispatch-anonymous auth rights cis (admin_user_add "a" "b" true) nobody [] refl refl

dispatch-not_admin_example :
    IsRefused auth rights cis
      (context "ann")
      []
      (dispatch auth rights cis (user_api_key_get "bob") (context "ann") [])
dispatch-not_admin_example =
    dispatch-not_admin auth rights cis (user_api_key_get "bob") (context "ann") [] (client "ann")
      refl refl refl

dispatch-answers_count_example :
    length (dispatch auth rights cis (user_change_pass "ann" "old" "new") (context "ann") []).sent
    ≡ 2
dispatch-answers_count_example =
    dispatch-answers_count auth rights cis (user_change_pass "ann" "old" "new") (context "ann") []

dispatch-ClientMove_example :
    ClientMove auth rights cis
      (auth_login_pass "ann" "old")
      nobody
      []
      (dispatch auth rights cis (auth_login_pass "ann" "old") nobody []).ctx.client_info
dispatch-ClientMove_example =
    dispatch-ClientMove auth rights cis (auth_login_pass "ann" "old") nobody []
