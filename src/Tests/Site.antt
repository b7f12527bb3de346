-- ===== src/Tests/Site.antt =====
-- Runs of the chain of the public server, over managers that know the token "t" of "ann", who may read
-- and write the project "p".
use cis1_webui_native_srv_cp.Prelude.{
  ◌≢◌, sym, subst, true, false, ◌&&◌, [], none, some, str_eq, if◌then◌else◌, All,
}
use mathlib.Core.Option.{some-injective}
use cis1_webui_native_srv_cp.Managers.{ProjectRights, AuthManager, RightsManager}
use cis1_webui_native_srv_cp.HttpHandlers.{
  Request, get, Target, download_route, webhooks_route, opened, done, Site, public_app,
}
use cis1_webui_native_srv_cp.HttpHandlers.Access.{IsEntitled, public_app-IsEntitled}

abbrev auth : AuthManager Unit
auth = record {
  authenticate = λ email pass w. (w, none, false);
  authenticate_token = λ token w. (w, if str_eq token "t" then some "ann" else none, false);
  has_user = λ email w. (false, false);
  generate_api_key = λ email w. (w, none, false);
  get_api_key = λ email w. (none, false);
  remove_api_key = λ email w. (w, false, false);
  check_pass = λ email pass w. false;
  change_pass = λ email pass w. (w, false, false);
  get_user_infos = λ w. ([], false);
  delete_token = λ token w. (w, true, false);
  add_user = λ email pass admin w. (w, true, false);
  delete_user = λ email w. (w, true, false);
}

abbrev all_of_p : ProjectRights
all_of_p = record { read = true; write = true; execute = true }

abbrev rights : RightsManager Unit
rights = record {
  is_admin = λ email w. (false, false);
  set_admin_status = λ email admin w. (w, true, false);
  check_project_right = λ email project w.
      (if str_eq email "ann" && str_eq project "p" then some all_of_p else none, false);
  get_permissions = λ email w. ([], false);
  get_permissions_by_project = λ project w. ([], false);
  set_user_project_permissions = λ email project perm w. (w, true, false);
}

abbrev site : Site Unit
site = record {
  auth_cookie = λ req. some "t";
  route = λ target. some (download_route "p" "f");
  open_page = λ path. opened;
  open_project_file = λ project path. opened;
  webhooks = λ req ctx w. record { world = w; ctx = ctx; events = []; result = done };
}

abbrev request : Request
request = record { method = get; content_type = ""; target = "/download/p/f" }

IsWebhooks : Target → Type 0
IsWebhooks webhooks_route = Unit
IsWebhooks _ = ⊥

no_webhooks : some (download_route "p" "f") ≢ some webhooks_route
unfolding IsWebhooks
no_webhooks e = subst IsWebhooks (sym (some-injective _ _ e)) tt

public_app-IsEntitled_example :
    All (IsEntitled auth rights site request tt) (public_app auth rights site request tt).1
public_app-IsEntitled_example = public_app-IsEntitled auth rights site request tt no_webhooks
